-- ===== src/Tests/SlaCases.antt =====
-- The business-hours arithmetic and the sweep on concrete schedules and tickets.
use sentinel_desk.Schema.{Ticket}
use sentinel_desk.Prelude.{
  Bool, true, if◌then◌else◌, ℕ, zero, suc, ◌+◌, ◌*◌, ◌≤◌, ◌<◌, ◌≡◌, ◌≢◌, refl, some, [], ◌∷◌, ◌++◌,
  map, arith, length, select, IsDistinct, ok, err, internal_error, scan_window_exceeded,
}
use sentinel_desk.Schema.{medium, response_sla_breached, resolution_sla_breached}
use sentinel_desk.Store.{Db}
use sentinel_desk.Sla.BusinessHours.{
  BusinessHoursConfig, second_of_day, day_slots, add_business_minutes,
}
use sentinel_desk.Sla.BusinessHours.Day.{open_from}
use sentinel_desk.Sla.BusinessHours.Timetable.{IsSchedule}
use sentinel_desk.Sla.BusinessHours.Scan.{slots_on, business_time, capacity}
use sentinel_desk.Sla.BusinessHours.Due.{
  window, local_second, add_business_minutes_exact, add_business_minutes_total,
  add_business_minutes_exceeds,
}
use sentinel_desk.Sla.Sweep.{
  check_response_breaches, check_resolution_breaches, check_auto_escalations, is_response_candidate,
  is_resolution_candidate, is_escalation_candidate, is_due_for_escalation,
}
use sentinel_desk.Sla.Passes.{
  response_row, breach_entry, check_response_breaches_exact, resolution_row,
  check_resolution_breaches_exact,
}
use sentinel_desk.Sla.Escalation.{Escalates, raised_row, raised_entry, check_auto_escalations_exact}
use sentinel_desk.Sla.Service.{compute_due_dates_for_new_ticket}
use sentinel_desk.Sla.Simulator.{
  simulate, preview_by_rule, previewed, computed, simulate-compute_due_dates_for_new_ticket,
}
use sentinel_desk.Tests.World.{gold, desk_env, utc, utc-IsCalendar, utc-IsSteady, desk}

-- Thursdays from 9 to 17 and Fridays from 8 to 12.
abbrev office : BusinessHoursConfig
office = record {
  timezone = [];
  slots =
      record { day_of_week = 5; start_minute = 480; end_minute = 720 }
      ∷ record { day_of_week = 4; start_minute = 540; end_minute = 1020 }
      ∷ [];
  holiday_dates = [];
}

office-IsSchedule : IsSchedule office
office-IsSchedule = ground arith

-- Sixteen o'clock on the first day of the epoch, a Thursday, and three hours: ten o'clock on the
-- day after.
abbrev four_pm : ℕ
four_pm = 57600000

abbrev next_ten_am : ℕ
next_ten_am = 122400000

office_due : add_business_minutes (λ _. utc) four_pm 180 office ≡ ok next_ten_am
unfolding add_business_minutes
office_due = refl

has_slots : office.slots ≢ []
has_slots e = cc

add_business_minutes_exact_example :
    (k : ℕ) × (x : ℕ) × (local_second utc next_ten_am ≡ (utc.day_key four_pm + k) * 86400 + x)
    × (business_time office k (utc.day_key four_pm) (second_of_day utc four_pm) x ≡ 180 * 60)
    × (k < window)
add_business_minutes_exact_example =
    add_business_minutes_exact (λ _. utc) four_pm 180 office next_ten_am utc-IsCalendar utc-IsSteady
      office-IsSchedule has_slots (omega arith) office_due

-- The days of the window that come first give what they have.
capacity_first_days :
    (config : BusinessHoursConfig) (n d a m : ℕ)
    → m ≤ open_from (slots_on config d) a + open_from (slots_on config (d + 1)) 0
    → m ≤ capacity config (suc (suc n)) d a
capacity_first_days config n d a m h = omega arith

two_days : 180 * 60 ≤ open_from (slots_on office 0) 57600 + open_from (slots_on office 1) 0
unfolding day_slots
two_days = omega arith

office_room : 180 * 60 ≤ capacity office window (utc.day_key four_pm) (second_of_day utc four_pm)
office_room = capacity_first_days office 3659 0 57600 (180 * 60) two_days

add_business_minutes_total_example :
    (t : ℕ) × (add_business_minutes (λ _. utc) four_pm 180 office ≡ ok t)
add_business_minutes_total_example =
    add_business_minutes_total (λ _. utc) four_pm 180 office utc-IsCalendar office-IsSchedule
      has_slots (omega arith) office_room

-- A slot on a day of the week that there is not.
abbrev never : BusinessHoursConfig
never = record office {
  slots = record { day_of_week = 7; start_minute = 540; end_minute = 1020 } ∷ [];
}

capacity-never : (n d a : ℕ) → capacity never n d a ≡ 0
unfolding day_slots
capacity-never zero d a = refl
capacity-never (suc n) d a = ground (arith, capacity-never n (d + 1) 0)

never-IsSchedule : IsSchedule never
never-IsSchedule = ground arith

has_a_slot : never.slots ≢ []
has_a_slot e = cc

no_room : (n d a m : ℕ) → 0 < m → capacity never n d a < m
no_room n d a m h = omega (arith, capacity-never n d a)

never_room : capacity never window (utc.day_key four_pm) (second_of_day utc four_pm) < 60 * 60
never_room =
    no_room window (utc.day_key four_pm) (second_of_day utc four_pm) (60 * 60) (omega arith)

add_business_minutes_exceeds_example :
    add_business_minutes (λ _. utc) four_pm 60 never ≡ err (internal_error scan_window_exceeded)
add_business_minutes_exceeds_example =
    add_business_minutes_exceeds (λ _. utc) four_pm 60 never utc-IsCalendar never-IsSchedule
      has_a_slot (omega arith) never_room

desk_keys : IsDistinct (map (λ t. t.id) desk.tickets)
desk_keys = ground arith

check_response_breaches_exact_example :
    ((check_response_breaches 2000 desk).1.tickets ≡ map (response_row 2000) desk.tickets)
    × ((check_response_breaches 2000 desk).1.history
        ≡ desk.history
          ++ map
              (breach_entry 2000 response_sla_breached)
              (select (is_response_candidate 2000) desk.tickets))
    × ((check_response_breaches 2000 desk).0
        ≡ length (select (is_response_candidate 2000) desk.tickets))
    × ((check_response_breaches 2000 (check_response_breaches 2000 desk).1).0 ≡ 0)
check_response_breaches_exact_example = check_response_breaches_exact 2000 desk desk_keys

-- Three of the four: the waiting ticket's clock is stopped.
response_count : (check_response_breaches 2000 desk).0 ≡ 3
unfolding check_response_breaches is_response_candidate
response_count = refl

check_resolution_breaches_exact_example :
    ((check_resolution_breaches 5000 desk).1.tickets ≡ map (resolution_row 5000) desk.tickets)
    × ((check_resolution_breaches 5000 desk).1.history
        ≡ desk.history
          ++ map
              (breach_entry 5000 resolution_sla_breached)
              (select (is_resolution_candidate 5000) desk.tickets))
    × ((check_resolution_breaches 5000 desk).0
        ≡ length (select (is_resolution_candidate 5000) desk.tickets))
    × ((check_resolution_breaches 5000 (check_resolution_breaches 5000 desk).1).0 ≡ 0)
check_resolution_breaches_exact_example = check_resolution_breaches_exact 5000 desk desk_keys

check_auto_escalations_exact_example :
    (picks : Ticket → Bool) × ((t : Ticket) → picks t ≡ true → Escalates 2000 desk t)
    × ((t : Ticket) → Escalates 2000 desk t → picks t ≡ true)
    × ((check_auto_escalations 2000 desk).1.tickets
        ≡ map (λ t. if picks t then raised_row 2000 t else t) desk.tickets)
    × ((check_auto_escalations 2000 desk).1.history
        ≡ desk.history ++ map (raised_entry 2000) (select picks desk.tickets))
    × ((check_auto_escalations 2000 desk).0 ≡ length (select picks desk.tickets))
    × ((later : ℕ) (other : Db) (t : Ticket) → ¬ Escalates later other (raised_row 2000 t))
check_auto_escalations_exact_example = check_auto_escalations_exact 2000 desk desk_keys

-- Half of the window of the two open, running tickets has passed.
escalation_count : (check_auto_escalations 2000 desk).0 ≡ 2
unfolding check_auto_escalations is_escalation_candidate is_due_for_escalation
escalation_count = refl

-- The desk with targets for medium priority and office hours.
abbrev timed_desk : Db
timed_desk = record desk {
  policies =
      record gold {
        rules =
            record {
              priority = medium;
              response_target_minutes = 60;
              resolution_target_minutes = 180;
            }
            ∷ [];
        business_hours = record {
          timezone = [];
          slots =
              record { day_of_week = 5; start_minute = 480; end_minute = 720 }
              ∷ record { day_of_week = 4; start_minute = 540; end_minute = 1020 }
              ∷ [];
          holidays = [];
        };
      }
      ∷ [];
}

simulate-compute_due_dates_for_new_ticket_example :
    previewed (simulate (desk_env 0) 1 medium four_pm timed_desk)
    ≡ computed (compute_due_dates_for_new_ticket (desk_env 0) 1 medium four_pm timed_desk)
simulate-compute_due_dates_for_new_ticket_example =
    simulate-compute_due_dates_for_new_ticket (desk_env 0) 1 medium four_pm timed_desk

timed_preview :
    previewed (simulate (desk_env 0) 1 medium four_pm timed_desk)
    ≡ ok (some 61200000, some next_ten_am)
unfolding simulate preview_by_rule add_business_minutes
timed_preview = refl
