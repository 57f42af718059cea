-- ===== src/Tests/World.antt =====
-- A calendar in UTC, a policy, four users, a desk with tickets in several states.
use sentinel_desk.Sla.BusinessHours.Due.{local_second, IsSteady}
use sentinel_desk.Prelude.{
  ok, ◌≡◌, ◌∙◌, ap, sym, ℕ, ◌+◌, ◌*◌, ◌/◌, ◌%◌, refl, true, false, none, some, [], ◌∷◌, arith,
}
use sentinel_desk.Schema.{
  AuthenticatedUser, RoleName, customer, agent, Ticket, opened, pending, resolved, medium, high,
  Comment, public, internal, Member, SlaPolicy,
}
use sentinel_desk.Store.{Db, Env}
use sentinel_desk.Sla.BusinessHours.{Luxon}
use sentinel_desk.Sla.BusinessHours.Scan.{IsCalendar}

abbrev pub utc : Luxon
utc = record {
  day_key = λ t. t / 86400000;
  weekday = λ t. (t / 86400000 + 3) % 7 + 1;
  hour = λ t. t / 3600000 % 24;
  minute = λ t. t / 60000 % 60;
  second = λ t. t / 1000 % 60;
  start_of_day = λ t. t / 86400000 * 86400000;
  plus_day = λ t. t + 86400000;
}

pub utc-IsCalendar : IsCalendar utc
utc-IsCalendar = record {
  next_day = λ t. omega arith;
  midnight = λ t. omega arith;
  weekdays = λ t. refl;
}

-- The clock of UTC shows the seconds that have passed.
utc_minutes : (s : ℕ) → s / 3600 % 24 * 60 + s / 60 % 60 + s / 86400 * 1440 ≡ s / 60
utc_minutes s = omega arith

utc_second : (s : ℕ) → s / 86400 * 86400 + ((s / 3600 % 24 * 60 + s / 60 % 60) * 60 + s % 60) ≡ s
utc_second s = omega (arith, utc_minutes s)

utc-local_second : (t : ℕ) → local_second utc t ≡ t / 1000
utc-local_second t =
    let day : t / 86400000 ≡ t / 1000 / 86400 = omega arith in
    let hour : t / 3600000 ≡ t / 1000 / 3600 = omega arith in
    let minute : t / 60000 ≡ t / 1000 / 60 = omega arith in
    rw (day, hour, minute) (utc_second (t / 1000))

seconds_on : (t x : ℕ) → (t + x * 1000) / 1000 ≡ t / 1000 + x
seconds_on t x = omega arith

pub utc-IsSteady : IsSteady utc
utc-IsSteady = record {
  runs = λ t x.
      utc-local_second (t + x * 1000)
      ∙ seconds_on t x
      ∙ ap (λ (s : ℕ). s + x) (sym (utc-local_second t));
  same_day = λ t. omega arith;
}

abbrev pub desk_env : ℕ → Env
desk_env now = record {
  now = now;
  uuid = λ n. n + 1000;
  luxon = λ _. utc;
  sanitize_rich_text = λ s. s;
  upload = λ id name. ok name;
}

abbrev pub someone : ℕ → RoleName → AuthenticatedUser
someone id role = record {
  id = id;
  organization_id = 1;
  role = role;
  permissions = [];
  session_id = 0;
}

abbrev pub ann : AuthenticatedUser
ann = someone 20 customer

abbrev pub bob : AuthenticatedUser
bob = someone 10 agent

abbrev pub member : ℕ → Member
member id = record { id = id; organization_id = 1; first_name = []; last_name = []; email = [] }

abbrev pub filed : ℕ → ℕ → Ticket
filed id requester = record {
  id = id;
  organization_id = 1;
  number = id;
  subject = [];
  status = opened;
  priority = medium;
  requester_id = requester;
  assignee_id = some 10;
  merged_into_id = none;
  split_from_id = none;
  reopened_count = 0;
  first_response_at = none;
  resolved_at = none;
  closed_at = none;
  sla_policy_id = some 5;
  response_due_at = some 1000;
  resolution_due_at = some 3000;
  response_breached = false;
  resolution_breached = false;
  sla_paused_at = none;
  sla_escalated_at = none;
  csat_rating = none;
  csat_comment = none;
  csat_rated_at = none;
  ai_suggested_priority = some high;
  ai_suggested_tags = [];
  created_at = 0;
  updated_at = 0;
}

-- Of Ann: an open ticket, a waiting one and a resolved one; and an open one of somebody else.
abbrev pub running : Ticket
running = filed 1 20

abbrev pub waiting : Ticket
waiting = record (filed 2 20) { status = pending; sla_paused_at = some 500 }

abbrev pub settled : Ticket
settled = record (filed 3 20) { status = resolved; resolved_at = some 800; assignee_id = none }

abbrev pub foreign : Ticket
foreign = filed 4 21

abbrev pub remark : ℕ → ℕ → Comment
remark id ticket = record {
  id = id;
  ticket_id = ticket;
  author_id = 20;
  visibility = public;
  body = [];
  created_at = 0;
}

abbrev pub gold : SlaPolicy
gold = record {
  id = 5;
  organization_id = 1;
  name = [];
  is_default = true;
  auto_escalate_at_percent = 50;
  rules = [];
  business_hours = record { timezone = []; slots = []; holidays = [] };
}

abbrev pub desk : Db
desk = record {
  organizations = record { id = 1; next_ticket_number = 5 } ∷ [];
  members = member 10 ∷ member 20 ∷ member 21 ∷ member 30 ∷ [];
  tickets = running ∷ waiting ∷ settled ∷ foreign ∷ [];
  comments =
      remark 100 1
      ∷ record (remark 101 1) { author_id = 10; visibility = internal }
      ∷ remark 102 1
      ∷ remark 103 4
      ∷ [];
  attachments = [];
  tags = [];
  ticket_tags = [];
  watchers =
      record { ticket_id = 1; user_id = 30 }
      ∷ record { ticket_id = 1; user_id = 20 }
      ∷ record { ticket_id = 4; user_id = 10 }
      ∷ [];
  history = [];
  policies = gold ∷ [];
  notifications = [];
  audit_logs = [];
  webhooks = [];
  outbox = [];
  keys_drawn = 0;
}
