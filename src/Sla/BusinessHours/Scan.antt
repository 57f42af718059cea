-- ===== src/Sla/BusinessHours/Scan.antt =====
-- The day by day loop of apps/backend/src/sla/business-hours.util.ts against the business time that
-- lies between two moments of the local calendar.
use sentinel_desk.Prelude.{
  ℕ, zero, suc, ◌+◌, ◌*◌, ◌%◌, ◌≤◌, ◌<◌, ◌≡◌, refl, sym, ◌∙◌, List, arith, ok, err, internal_error,
  scan_window_exceeded,
}
use sentinel_desk.Sla.BusinessHours.{
  Luxon, Slot, BusinessHoursConfig, day_slots, second_of_day, Outcome, due_at, owed, walk, scan,
}
use sentinel_desk.Sla.BusinessHours.Day.{
  open_between, open_from, walk-due_at, walk-owed, walk-due_at_room,
}
use sentinel_desk.Sla.BusinessHours.Timetable.{IsSchedule, day_slots-IsTimetable}

-- What luxon documents of a zone whose days begin at midnight. Day 0 of the epoch is a Thursday,
-- and weekdays run from Monday, 1, to Sunday, 7.
pub record IsCalendar (l : Luxon) : Type 0 where
  pub next_day : (t : ℕ) → l.day_key (l.start_of_day (l.plus_day t)) ≡ l.day_key t + 1
  pub midnight : (t : ℕ) → second_of_day l (l.start_of_day t) ≡ 0
  pub weekdays : (t : ℕ) → l.weekday t ≡ (l.day_key t + 3) % 7 + 1

-- The start of the day that lies `k` days after the cursor's.
abbrev pub days_on : Luxon → ℕ → ℕ → ℕ
days_on l zero cursor = cursor
days_on l (suc k) cursor = days_on l k (l.start_of_day (l.plus_day cursor))

abbrev pub slots_on : BusinessHoursConfig → ℕ → List Slot
slots_on config d = day_slots config d (((d + 3) % 7 + 1) % 7)

-- The business time from the second `a` of the day `d` up to the second `x` of the `k`th day on.
abbrev pub business_time : BusinessHoursConfig → ℕ → ℕ → ℕ → ℕ → ℕ
business_time config zero d a x = open_between (slots_on config d) a x
business_time config (suc k) d a x =
    open_from (slots_on config d) a + business_time config k (d + 1) 0 x

-- The business time of `n` days, of the first only that from the second `a` on.
abbrev pub capacity : BusinessHoursConfig → ℕ → ℕ → ℕ → ℕ
capacity config zero d a = 0
capacity config (suc n) d a = open_from (slots_on config d) a + capacity config n (d + 1) 0

module _ (l : Luxon) (config : BusinessHoursConfig) where
  scan_done : (budget cursor : ℕ) → scan l config budget cursor 0 ≡ ok cursor
  unfolding scan
  scan_done zero cursor = refl
  scan_done (suc budget) cursor = refl

  -- A day that has room ends the loop.
  scan-due_at :
      (budget cursor remaining x : ℕ)
      → 0 < remaining
      → walk
          (day_slots config (l.day_key cursor) (l.weekday cursor % 7))
          (second_of_day l cursor)
          remaining
        ≡ due_at x
      → scan l config (suc budget) cursor remaining ≡ ok (l.start_of_day cursor + x * 1000)
  unfolding scan
  scan-due_at budget cursor remaining x h e =
      ground (arith, scan_done budget (l.start_of_day cursor + x * 1000))

  -- A day that has none hands what is owed to the next.
  scan-owed :
      (budget cursor remaining r : ℕ)
      → 0 < remaining
      → walk
          (day_slots config (l.day_key cursor) (l.weekday cursor % 7))
          (second_of_day l cursor)
          remaining
        ≡ owed r
      → scan l config (suc budget) cursor remaining
        ≡ scan l config budget (l.start_of_day (l.plus_day cursor)) r
  unfolding scan
  scan-owed budget cursor remaining r h e = ground arith

-- The date of the day that lies `k` days on.
pub day_key-days_on :
    (l : Luxon)
    → IsCalendar l
    → (k cursor : ℕ) → l.day_key (days_on l k cursor) ≡ l.day_key cursor + k
day_key-days_on l c zero cursor = omega arith
day_key-days_on l c (suc k) cursor =
    omega (arith, day_key-days_on l c k (l.start_of_day (l.plus_day cursor)), c.next_day cursor)

module _ (l : Luxon) (config : BusinessHoursConfig) (c : IsCalendar l) (v : IsSchedule config) where
  scan_spent :
      (cursor remaining : ℕ)
      → 0 < remaining
      → scan l config zero cursor remaining ≡ err (internal_error scan_window_exceeded)
  unfolding scan
  scan_spent cursor remaining h = ground arith

  -- The next day is read from its first second on.
  tomorrow :
      (cursor : ℕ)
      → (l.day_key (l.start_of_day (l.plus_day cursor)) ≡ l.day_key cursor + 1)
        × (second_of_day l (l.start_of_day (l.plus_day cursor)) ≡ 0)
  tomorrow cursor = (c.next_day cursor, c.midnight (l.plus_day cursor))

  -- What the loop does with the cursor's day, by how that day's walk ends.
  data DayStep (budget cursor remaining : ℕ) : Type 0 where
    settles :
        (x : ℕ)
        → scan l config (suc budget) cursor remaining ≡ ok (l.start_of_day cursor + x * 1000)
        → open_between (slots_on config (l.day_key cursor)) (second_of_day l cursor) x ≡ remaining
        → remaining ≤ open_from (slots_on config (l.day_key cursor)) (second_of_day l cursor)
        → DayStep budget cursor remaining
    carries :
        (r : ℕ)
        → scan l config (suc budget) cursor remaining
          ≡ scan l config budget (l.start_of_day (l.plus_day cursor)) r
        → open_from (slots_on config (l.day_key cursor)) (second_of_day l cursor) + r ≡ remaining
        → 0 < r
        → DayStep budget cursor remaining

  slots_on-weekday :
      (cursor : ℕ)
      → day_slots config (l.day_key cursor) (l.weekday cursor % 7)
        ≡ slots_on config (l.day_key cursor)
  slots_on-weekday cursor = rw (c.weekdays cursor)

  day_step : (budget cursor remaining : ℕ) → 0 < remaining → DayStep budget cursor remaining
  day_step budget cursor remaining h = by_outcome (walk today from remaining) refl
    where
      today : List Slot
      today = day_slots config (l.day_key cursor) (l.weekday cursor % 7)

      from : ℕ
      from = second_of_day l cursor

      by_outcome : (o : Outcome) → walk today from remaining ≡ o → DayStep budget cursor remaining
      by_outcome (due_at x) e =
          let t = day_slots-IsTimetable config (l.day_key cursor) (l.weekday cursor % 7) v in
          settles x (scan-due_at l config budget cursor remaining x h e)
            (rw (slots_on-weekday cursor) at (walk-due_at 0 today from remaining x t h e).0)
            (rw (slots_on-weekday cursor) at (walk-due_at_room 0 today from remaining x t h e))
      by_outcome (owed r) e =
          let t = day_slots-IsTimetable config (l.day_key cursor) (l.weekday cursor % 7) v in
          let (rest, pos) = walk-owed 0 today from remaining r t h e in
          carries r (scan-owed l config budget cursor remaining r h e)
            (rw (slots_on-weekday cursor) at rest) pos

  -- Where the loop returns, the business time up to the due moment is what was to be placed.
  pub scan_sound :
      (budget cursor remaining t : ℕ)
      → 0 < remaining
      → scan l config budget cursor remaining ≡ ok t
      → (k : ℕ) × (x : ℕ) × (t ≡ l.start_of_day (days_on l k cursor) + x * 1000)
        × (business_time config k (l.day_key cursor) (second_of_day l cursor) x ≡ remaining)
        × (k < budget)
  scan_sound zero cursor remaining t h e = cc (scan_spent cursor remaining h)
  scan_sound (suc budget) cursor remaining t h e = elim (day_step budget cursor remaining h) [
    | settles x at spent _ ↦ (0, x, cc, spent, omega arith)
    | carries r at rest pos ↦
        let next = l.start_of_day (l.plus_day cursor) in
        let (k, x, due, total, within) = scan_sound budget next r t pos (sym at ∙ e) in
        let later = rw ((tomorrow cursor).0, (tomorrow cursor).1) at total in
        (suc k, x, due, omega (arith, later), omega arith)
  ]

  -- The loop returns exactly where the days that it may look at have room.
  pub scan_total :
      (budget cursor remaining : ℕ)
      → 0 < remaining
      → remaining ≤ capacity config budget (l.day_key cursor) (second_of_day l cursor)
      → (t : ℕ) × (scan l config budget cursor remaining ≡ ok t)
  scan_total zero cursor remaining h room = absurd (omega arith)
  scan_total (suc budget) cursor remaining h room = elim (day_step budget cursor remaining h) [
    | settles x at _ _ ↦ (l.start_of_day cursor + x * 1000, at)
    | carries r at rest pos ↦
        let next = l.start_of_day (l.plus_day cursor) in
        let (t, e) =
          scan_total budget next r pos
            (rw ((tomorrow cursor).0, (tomorrow cursor).1) (omega arith)) in
        (t, at ∙ e)
  ]

  pub scan_exhausted :
      (budget cursor remaining : ℕ)
      → capacity config budget (l.day_key cursor) (second_of_day l cursor) < remaining
      → scan l config budget cursor remaining ≡ err (internal_error scan_window_exceeded)
  scan_exhausted zero cursor remaining full = scan_spent cursor remaining full
  scan_exhausted (suc budget) cursor remaining full =
      elim (day_step budget cursor remaining (omega arith)) [
        | settles x at _ room ↦ absurd (omega arith)
        | carries r at rest pos ↦
            at
            ∙ scan_exhausted budget (l.start_of_day (l.plus_day cursor)) r
                (rw ((tomorrow cursor).0, (tomorrow cursor).1) (omega arith))
      ]
