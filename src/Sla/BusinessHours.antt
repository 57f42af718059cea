-- ===== src/Sla/BusinessHours.antt =====
-- apps/backend/src/sla/business-hours.util.ts. Instants are milliseconds since the epoch; a wall
-- clock is read in whole seconds, so minutes are counted in sixtieths and arithmetic is exact.
pub mod Day
pub mod Timetable
pub mod Scan
pub mod Due
use sentinel_desk.Prelude.{
  ℕ, zero, suc, ◌+◌, ◌-◌, ◌*◌, ◌%◌, max, true, false, List, [], ◌∷◌, Text, Result, ok, err,
  internal_error, scan_window_exceeded, ltb, leb, ◌==◌, if◌then◌else◌, select, includes,
}

-- What `DateTime` of luxon answers in one time zone. A calendar date ('yyyy-MM-dd') is only
-- compared, and is given by its ordinal.
pub record Luxon : Type 0 where
  pub day_key : ℕ → ℕ
  pub weekday : ℕ → ℕ
  pub hour : ℕ → ℕ
  pub minute : ℕ → ℕ
  pub second : ℕ → ℕ
  pub start_of_day : ℕ → ℕ
  pub plus_day : ℕ → ℕ

pub record Slot : Type 0 where
  pub day_of_week : ℕ
  pub start_minute : ℕ
  pub end_minute : ℕ

pub record BusinessHoursConfig : Type 0 where
  pub timezone : Text
  pub slots : List Slot
  pub holiday_dates : List ℕ

-- `MAX_DAYS_SCANNED`: the loop throws once the counter has passed it, so its body runs at most
-- one time more.
abbrev pub max_days_scanned : ℕ
max_days_scanned = 3660

-- `.sort((a, b) => a.startMinute - b.startMinute)`, which is stable.
abbrev pub insert_slot : Slot → List Slot → List Slot
insert_slot s [] = s ∷ []
insert_slot s (t ∷ ts) =
    let rest = insert_slot s ts in
    if leb s.start_minute t.start_minute then s ∷ t ∷ ts else t ∷ rest

abbrev pub sort_slots : List Slot → List Slot
sort_slots [] = []
sort_slots (s ∷ ss) = insert_slot s (sort_slots ss)

-- `daySlots` of the date `day_key` that falls on `todays_weekday`.
unfoldable pub day_slots : BusinessHoursConfig → ℕ → ℕ → List Slot
day_slots config day_key todays_weekday =
    if includes day_key config.holiday_dates
    then []
    else sort_slots (select (λ s. s.day_of_week == todays_weekday) config.slots)

-- `cursor.hour * 60 + cursor.minute + cursor.second / 60`, in seconds.
abbrev pub second_of_day : Luxon → ℕ → ℕ
second_of_day l cursor = (l.hour cursor * 60 + l.minute cursor) * 60 + l.second cursor

-- How the loop over a day's slots ends: at a second of the day, or with time still owed.
pub data Outcome : Type 0 where
  due_at : ℕ → Outcome
  owed : ℕ → Outcome

-- The `for` loop over the day's slots, from the second `now` with `remaining` seconds to place.
unfoldable pub walk : List Slot → ℕ → ℕ → Outcome
walk [] now remaining = owed remaining
walk (s ∷ ss) now remaining =
    let slot_start = max (s.start_minute * 60) now in
    let available = s.end_minute * 60 - slot_start in
    let skip = walk ss now remaining in
    let on = walk ss now (remaining - available) in
    if leb (s.end_minute * 60) slot_start
    then skip
    else if leb remaining available
    then due_at (slot_start + remaining)
    else on

-- The `while` loop; `budget` is how often its body may still run.
unfoldable pub scan : Luxon → BusinessHoursConfig → ℕ → ℕ → ℕ → Result ℕ
scan l config zero cursor remaining =
    if remaining == 0 then ok cursor else err (internal_error scan_window_exceeded)
scan l config (suc budget) cursor remaining = elim (remaining == 0) [
  | true ↦ ok cursor
  | false ↦
      elim (walk (day_slots config (l.day_key cursor) (l.weekday cursor % 7))
        (second_of_day l cursor) remaining) [
          | due_at s ↦ scan l config budget (l.start_of_day cursor + s * 1000) 0
          | owed r ↦ scan l config budget (l.start_of_day (l.plus_day cursor)) r
        ]
]

-- `addBusinessMinutes`: `luxon` gives the calendar of a time zone.
unfoldable pub add_business_minutes : (Text → Luxon) → ℕ → ℕ → BusinessHoursConfig → Result ℕ
unfolding scan walk day_slots
add_business_minutes luxon start minutes config = elim config.slots [
  | [] ↦ ok (start + minutes * 60000)
  | _ ∷ _ ↦ scan (luxon config.timezone) config (suc max_days_scanned) start (minutes * 60)
]
