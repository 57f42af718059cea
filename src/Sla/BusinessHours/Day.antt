-- ===== src/Sla/BusinessHours/Day.antt =====
-- One day's slots (the `for` loop of apps/backend/src/sla/business-hours.util.ts) against the
-- business time of a stretch of that day.
use sentinel_desk.Prelude.{
  ℕ, ◌+◌, ◌-◌, ◌*◌, ◌≤◌, ◌<◌, min, max, ◌≡◌, refl, ◌⊎◌, List, [], ◌∷◌, arith, All,
}
use sentinel_desk.Sla.BusinessHours.{Slot, due_at, owed, walk}

-- The seconds of the slot that lie in the stretch from `a` up to `b`.
abbrev pub overlap : Slot → ℕ → ℕ → ℕ
overlap s a b = min (s.end_minute * 60) b - max (s.start_minute * 60) a

-- The business time of a day from the second `a` up to `b`.
abbrev pub open_between : List Slot → ℕ → ℕ → ℕ
open_between [] a b = 0
open_between (s ∷ ss) a b = overlap s a b + open_between ss a b

-- The business time of a day from the second `a` on.
abbrev pub open_from : List Slot → ℕ → ℕ
open_from [] a = 0
open_from (s ∷ ss) a = (s.end_minute * 60 - max (s.start_minute * 60) a) + open_from ss a

-- A slot has some length, and two slots do not run at the same time.
abbrev pub IsSlot : Slot → Type 0
IsSlot s = s.start_minute < s.end_minute

abbrev pub Apart : Slot → Slot → Type 0
Apart s t = (s.end_minute ≤ t.start_minute) ⊎ (t.end_minute ≤ s.start_minute)

abbrev pub AllApart : List Slot → Type 0
AllApart [] = Unit
AllApart (s ∷ ss) = All (Apart s) ss × AllApart ss

-- Each slot begins when those before it are over.
abbrev pub IsTimetable : ℕ → List Slot → Type 0
IsTimetable m [] = Unit
IsTimetable m (s ∷ ss) =
    (m ≤ s.start_minute) × (s.start_minute < s.end_minute) × IsTimetable s.end_minute ss

-- Slots that start after the second `b` have no time before it.
open_between_before :
    (m : ℕ) (ss : List Slot) (a b : ℕ) → IsTimetable m ss → b ≤ m * 60 → open_between ss a b ≡ 0
open_between_before m [] a b t h = refl
open_between_before m (s ∷ ss) a b t h = omega (arith, open_between_before s.end_minute ss a b t.2)

-- The loop either finds the due second, and then the time up to it is what was to be placed, or
-- what it still owes is short by the time of the rest of the day.
pub walk-due_at :
    (m : ℕ) (ss : List Slot) (now remaining x : ℕ)
    → IsTimetable m ss
    → 0 < remaining
    → walk ss now remaining ≡ due_at x
    → (open_between ss now x ≡ remaining) × (now < x) × (m * 60 ≤ x)
unfolding walk
walk-due_at m [] now remaining x t pos h = cc
walk-due_at m (s ∷ ss) now remaining x t pos h = ground (
  arith,
  walk-due_at s.end_minute ss now remaining x t.2 pos,
  walk-due_at s.end_minute ss now (remaining - (s.end_minute * 60 - max (s.start_minute * 60) now))
      x t.2,
  open_between_before s.end_minute ss now x t.2,
)

pub walk-owed :
    (m : ℕ) (ss : List Slot) (now remaining r : ℕ)
    → IsTimetable m ss
    → 0 < remaining
    → walk ss now remaining ≡ owed r
    → (open_from ss now + r ≡ remaining) × (0 < r)
unfolding walk
walk-owed m [] now remaining r t pos h = ground arith
walk-owed m (s ∷ ss) now remaining r t pos h = ground (
  arith,
  walk-owed s.end_minute ss now remaining r t.2 pos,
  walk-owed s.end_minute ss now (remaining - (s.end_minute * 60 - max (s.start_minute * 60) now)) r
      t.2,
)

-- A due second lies within the rest of the day.
pub walk-due_at_room :
    (m : ℕ) (ss : List Slot) (now remaining x : ℕ)
    → IsTimetable m ss
    → 0 < remaining
    → walk ss now remaining ≡ due_at x
    → remaining ≤ open_from ss now
unfolding walk
walk-due_at_room m [] now remaining x t pos h = cc
walk-due_at_room m (s ∷ ss) now remaining x t pos h = ground (
  arith,
  walk-due_at_room s.end_minute ss now remaining x t.2 pos,
  walk-due_at_room s.end_minute ss now
      (remaining - (s.end_minute * 60 - max (s.start_minute * 60) now)) x t.2,
)
