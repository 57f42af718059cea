-- ===== src/Sla/BusinessHours/Due.antt =====
-- `addBusinessMinutes` of apps/backend/src/sla/business-hours.util.ts as its callers see it.
use sentinel_desk.Prelude.{
  ℕ, suc, ◌+◌, ◌*◌, ◌≤◌, ◌<◌, ◌≡◌, refl, ◌≢◌, ◌∙◌, ap, List, [], ◌∷◌, arith, Text, ok, err,
  internal_error, scan_window_exceeded,
}
use sentinel_desk.Sla.BusinessHours.{
  Luxon, Slot, BusinessHoursConfig, max_days_scanned, second_of_day, scan, add_business_minutes,
}
use sentinel_desk.Sla.BusinessHours.Timetable.{IsSchedule}
use sentinel_desk.Sla.BusinessHours.Scan.{
  IsCalendar, day_key-days_on, days_on, business_time, capacity, scan_sound, scan_total,
  scan_exhausted,
}

-- The days that the loop may look at.
abbrev pub window : ℕ
window = suc max_days_scanned

add_business_minutes-scan :
    (luxon : Text → Luxon) (start minutes : ℕ) (config : BusinessHoursConfig)
    → config.slots ≢ []
    → add_business_minutes luxon start minutes config
      ≡ scan (luxon config.timezone) config window start (minutes * 60)
unfolding add_business_minutes
add_business_minutes-scan luxon start minutes config h = by_slots config.slots refl
  where
    by_slots :
        (ss : List Slot)
        → config.slots ≡ ss
        → add_business_minutes luxon start minutes config
          ≡ scan (luxon config.timezone) config window start (minutes * 60)
    by_slots [] e = absurd (h e)
    by_slots (s ∷ ss) e = simp (e, add_business_minutes)

-- What the local clock shows, in seconds since the day 0 began.
abbrev pub local_second : Luxon → ℕ → ℕ
local_second l t = l.day_key t * 86400 + second_of_day l t

-- A clock that is never put forward or back: a second on is a second later on it, and a day is the
-- day of its start.
pub record IsSteady (l : Luxon) : Type 0 where
  pub runs : (t x : ℕ) → local_second l (t + x * 1000) ≡ local_second l t + x
  pub same_day : (t : ℕ) → l.day_key (l.start_of_day t) ≡ l.day_key t

no_seconds : (d x : ℕ) → d * 86400 + 0 + x ≡ d * 86400 + x
no_seconds d x = omega arith

seconds_pos : (minutes : ℕ) → 0 < minutes → 0 < minutes * 60
seconds_pos minutes h = omega arith

module _ (luxon : Text → Luxon) (start minutes : ℕ) (config : BusinessHoursConfig) where
  -- The due date by the seconds that have elapsed since the start of its day, whatever the clock shows
  -- on a day on which it is changed.
  add_business_minutes-elapsed :
      (t : ℕ)
      → IsCalendar (luxon config.timezone)
      → IsSchedule config
      → config.slots ≢ []
      → 0 < minutes
      → add_business_minutes luxon start minutes config ≡ ok t
      → let l = luxon config.timezone in
        (k : ℕ) × (x : ℕ) × (t ≡ l.start_of_day (days_on l k start) + x * 1000)
        × (business_time config k (l.day_key start) (second_of_day l start) x ≡ minutes * 60)
        × (k < window)
  add_business_minutes-elapsed t c v some_slots pos e =
      scan_sound (luxon config.timezone) config c v window start (minutes * 60) t
        (seconds_pos minutes pos)
        (rw (add_business_minutes-scan luxon start minutes config some_slots) at e)

  -- In a zone whose days begin at midnight and whose clock is never changed (UTC, and every zone with
  -- a fixed offset), with slots that have some length and do not overlap on a weekday, and a positive
  -- target, a due date that is returned is an instant at which the local clock shows second `x` of
  -- the day `k` days after the start's, less than 3661 days on, and the business time on the local
  -- clock from the start up to that second of that day is exactly the target.
  pub add_business_minutes_exact :
      (t : ℕ)
      → IsCalendar (luxon config.timezone)
      → IsSteady (luxon config.timezone)
      → IsSchedule config
      → config.slots ≢ []
      → 0 < minutes
      → add_business_minutes luxon start minutes config ≡ ok t
      → let l = luxon config.timezone in
        (k : ℕ) × (x : ℕ) × (local_second l t ≡ (l.day_key start + k) * 86400 + x)
        × (business_time config k (l.day_key start) (second_of_day l start) x ≡ minutes * 60)
        × (k < window)
  add_business_minutes_exact t c steady v some_slots pos e =
      let l = luxon config.timezone in
      let (k, x, here, spent, soon) = add_business_minutes-elapsed t c v some_slots pos e in
      let day = days_on l k start in
      let passed = steady.runs (l.start_of_day day) x in
      let same = steady.same_day day in
      let begins = c.midnight day in
      let which = day_key-days_on l c k start in
      (
        k,
        x,
        ap (local_second l) here
            ∙ passed
            ∙ ap (λ (s : ℕ). l.day_key (l.start_of_day day) * 86400 + s + x) begins
            ∙ ap (λ (d : ℕ). d * 86400 + 0 + x) (same ∙ which)
            ∙ no_seconds (l.day_key start + k) x,
        spent,
        soon,
      )

  -- In a zone whose days begin at midnight, with slots that have some length and do not overlap
  -- on a weekday, and a positive target, a due date is returned where the 3661 days from the
  -- start's on hold the target's business time.
  pub add_business_minutes_total :
      IsCalendar (luxon config.timezone)
      → IsSchedule config
      → config.slots ≢ []
      → 0 < minutes
      → minutes * 60
        ≤ capacity config window
            ((luxon config.timezone).day_key start)
            (second_of_day (luxon config.timezone) start)
      → (t : ℕ) × (add_business_minutes luxon start minutes config ≡ ok t)
  add_business_minutes_total c v some_slots pos room =
      rw (add_business_minutes-scan luxon start minutes config some_slots) (
        scan_total (luxon config.timezone) config c v window start (minutes * 60)
          (seconds_pos minutes pos) room)

  -- In a zone whose days begin at midnight, with slots that have some length and do not overlap
  -- on a weekday, and a positive target, the scan window is exceeded where the 3661 days from the
  -- start's on hold less business time than the target.
  pub add_business_minutes_exceeds :
      IsCalendar (luxon config.timezone)
      → IsSchedule config
      → config.slots ≢ []
      → 0 < minutes
      → capacity config window
          ((luxon config.timezone).day_key start)
          (second_of_day (luxon config.timezone) start)
        < minutes * 60
      → add_business_minutes luxon start minutes config ≡ err (internal_error scan_window_exceeded)
  add_business_minutes_exceeds c v some_slots pos full =
      rw (add_business_minutes-scan luxon start minutes config some_slots)
        (scan_exhausted (luxon config.timezone) config c v window start (minutes * 60) full)
