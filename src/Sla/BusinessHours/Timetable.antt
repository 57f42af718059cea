-- ===== src/Sla/BusinessHours/Timetable.antt =====
-- `daySlots` of apps/backend/src/sla/business-hours.util.ts, sorted, as a day's timetable.
use sentinel_desk.Prelude.{
  ℕ, ◌≤◌, inl, inr, Bool, List, [], ◌∷◌, arith, All, leb, select, Bool-cases, includes, ◌==◌,
}
use sentinel_desk.Sla.BusinessHours.{Slot, BusinessHoursConfig, insert_slot, sort_slots, day_slots}
use sentinel_desk.Sla.BusinessHours.Day.{IsSlot, Apart, AllApart, IsTimetable}

IsTimetable-mono : (m n : ℕ) (ss : List Slot) → n ≤ m → IsTimetable m ss → IsTimetable n ss
IsTimetable-mono m n [] h t = tt
IsTimetable-mono m n (s ∷ ss) h t = (omega arith, t.1, t.2)

insert_slot-IsTimetable :
    (m : ℕ) (s : Slot) (ss : List Slot)
    → m ≤ s.start_minute
    → IsSlot s
    → All (Apart s) ss
    → IsTimetable m ss
    → IsTimetable m (insert_slot s ss)
insert_slot-IsTimetable m s [] h v a t = (h, v, tt)
insert_slot-IsTimetable m s (u ∷ us) h v a t =
    ground (arith, insert_slot-IsTimetable u.end_minute s us, a.1)

insert_slot-All {κ} :
    (P : Slot → Type κ) (s : Slot) (ss : List Slot) → P s → All P ss → All P (insert_slot s ss)
insert_slot-All P s [] h a = (h, a)
insert_slot-All P s (u ∷ us) h a = elim (Bool-cases (leb s.start_minute u.start_minute)) [
  | inl e ↦ rw e (h, a)
  | inr e ↦ rw e (a.0, insert_slot-All P s us h a.1)
]

sort_slots-All {κ} : (P : Slot → Type κ) (ss : List Slot) → All P ss → All P (sort_slots ss)
sort_slots-All P [] a = a
sort_slots-All P (s ∷ ss) a = insert_slot-All P s (sort_slots ss) a.0 (sort_slots-All P ss a.1)

sort_slots-IsTimetable :
    (ss : List Slot) → All IsSlot ss → AllApart ss → IsTimetable 0 (sort_slots ss)
sort_slots-IsTimetable [] v a = tt
sort_slots-IsTimetable (s ∷ ss) v a =
    insert_slot-IsTimetable 0 s (sort_slots ss) (omega arith) v.0 (sort_slots-All (Apart s) ss a.0)
      (sort_slots-IsTimetable ss v.1 a.1)

select-All {κ} :
    (P : Slot → Type κ) (p : Slot → Bool) (ss : List Slot) → All P ss → All P (select p ss)
select-All P p [] a = a
select-All P p (s ∷ ss) a = elim (Bool-cases (p s)) [
  | inl e ↦ rw e (a.0, select-All P p ss a.1)
  | inr e ↦ rw e (select-All P p ss a.1)
]

select-AllApart : (p : Slot → Bool) (ss : List Slot) → AllApart ss → AllApart (select p ss)
select-AllApart p [] a = a
select-AllApart p (s ∷ ss) a = elim (Bool-cases (p s)) [
  | inl e ↦ rw e (select-All (Apart s) p ss a.0, select-AllApart p ss a.1)
  | inr e ↦ rw e (select-AllApart p ss a.1)
]

-- Of a schedule: every slot has some length, and no two of one weekday run at the same time.
pub record IsSchedule (config : BusinessHoursConfig) : Type 0 where
  pub slots_valid : All IsSlot config.slots
  pub days_apart : (w : ℕ) → AllApart (select (λ s. s.day_of_week == w) config.slots)

pub day_slots-IsTimetable :
    (config : BusinessHoursConfig) (day_key w : ℕ)
    → IsSchedule config
    → IsTimetable 0 (day_slots config day_key w)
unfolding day_slots
day_slots-IsTimetable config day_key w v =
    elim (Bool-cases (includes day_key config.holiday_dates)) [
      | inl e ↦ rw e tt
      | inr e ↦ rw e (
          sort_slots-IsTimetable _ (select-All IsSlot _ config.slots v.slots_valid)
            (v.days_apart w))
    ]
