-- ===== src/Sla/Service.antt =====
-- apps/backend/src/sla/sla.service.ts: due dates from an organization's policy, and the SLA clock.
use sentinel_desk.Prelude.{
  ℕ, ◌+◌, ◌-◌, ◌/◌, Bool, true, false, ◌&&◌, Option, none, some, List, [], ◌∷◌, map, Result, ok,
  ◌>>=◌, or_throw, internal_error, constraint_violated, ◌==◌, find, is_none, if◌then◌else◌,
}
use sentinel_desk.Prelude.Int.{ℤ, sub_ℕ, floor_div}
use sentinel_desk.Schema.{
  TicketPriority, priority_eq, Ticket, SlaPolicy, SlaPolicyRule, BusinessHoursSchedule,
  paused_minutes, no_metadata, sla_paused, sla_resumed,
}
use sentinel_desk.Store.{Db, Env, find_ticket, update_ticket, write_history}
use sentinel_desk.Sla.BusinessHours.{BusinessHoursConfig, add_business_minutes}

pub record DueDates : Type 0 where
  pub sla_policy_id : Option ℕ
  pub response_due_at : Option ℕ
  pub resolution_due_at : Option ℕ

-- `Partial<DueDates>`, of which the policy is never set.
pub record DueDateChange : Type 0 where
  pub response_due_at : Option ℕ
  pub resolution_due_at : Option ℕ

-- `toBusinessHoursConfig`. A holiday's date is the UTC day of its instant.
abbrev pub to_business_hours_config : BusinessHoursSchedule → BusinessHoursConfig
to_business_hours_config schedule = record {
  timezone = schedule.timezone;
  slots =
      map
        (λ s. record {
          day_of_week = s.day_of_week;
          start_minute = s.start_minute;
          end_minute = s.end_minute;
        })
        schedule.slots;
  holiday_dates = map (λ h. h / 86400000) schedule.holidays;
}

-- `slaPolicy.findFirst({ where: { organizationId, isDefault: true } })`
abbrev pub default_policy : ℕ → List SlaPolicy → Option SlaPolicy
default_policy organization_id [] = none
default_policy organization_id (p ∷ ps) =
    let rest = default_policy organization_id ps in
    if p.organization_id == organization_id && p.is_default then some p else rest

-- `policy.rules.find((r) => r.priority === priority)`
abbrev pub rule_for : TicketPriority → List SlaPolicyRule → Option SlaPolicyRule
rule_for priority [] = none
rule_for priority (r ∷ rs) =
    let rest = rule_for priority rs in if priority_eq r.priority priority then some r else rest

-- The due dates of a ticket that starts at `from` under a rule of the policy.
unfoldable pub due_dates_by_rule : Env → SlaPolicy → ℕ → SlaPolicyRule → Result DueDates
due_dates_by_rule env policy from rule = do
  let config = to_business_hours_config policy.business_hours
  response ← add_business_minutes env.luxon from rule.response_target_minutes config
  resolution ← add_business_minutes env.luxon from rule.resolution_target_minutes config
  ok (record {
    sla_policy_id = some policy.id;
    response_due_at = some response;
    resolution_due_at = some resolution;
  })

-- `computeDueDatesForNewTicket`
unfoldable pub compute_due_dates_for_new_ticket :
    Env → ℕ → TicketPriority → ℕ → Db → Result DueDates
unfolding due_dates_by_rule
compute_due_dates_for_new_ticket env organization_id priority from db =
    elim (default_policy organization_id db.policies) [
      | none ↦
          ok (record { sla_policy_id = none; response_due_at = none; resolution_due_at = none })
      | some policy ↦ elim (rule_for priority policy.rules) [
        | none ↦ ok (record {
          sla_policy_id = some policy.id;
          response_due_at = none;
          resolution_due_at = none;
        })
        | some rule ↦ due_dates_by_rule env policy from rule
      ]
    ]

-- A due date that is derived anew, unless the ticket has already met it.
abbrev pub derive : Bool → Result ℕ → Result (Option ℕ)
derive true due = due >>= λ t. ok (some t)
derive false due = ok none

abbrev pub no_change : DueDateChange
no_change = record { response_due_at = none; resolution_due_at = none }

-- `recomputeDueDatesForPriorityChange`
unfoldable pub recompute_due_dates_for_priority_change :
    Env → ℕ → TicketPriority → Db → Result DueDateChange
recompute_due_dates_for_priority_change env ticket_id new_priority db = do
  ticket ← or_throw (find_ticket ticket_id db) (internal_error constraint_violated)
  elim ticket.sla_policy_id [
    | none ↦ ok no_change
    | some policy_id ↦ do
      policy ←
          or_throw (find (λ p. p.id) policy_id db.policies) (internal_error constraint_violated)
      elim (rule_for new_priority policy.rules) [
        | none ↦ ok no_change
        | some rule ↦ do
          let config = to_business_hours_config policy.business_hours
          response ←
              derive (is_none ticket.first_response_at) (
                add_business_minutes env.luxon ticket.created_at rule.response_target_minutes
                  config)
          resolution ← derive (is_none ticket.resolved_at) (
              add_business_minutes env.luxon ticket.created_at rule.resolution_target_minutes
                config)
          ok (record { response_due_at = response; resolution_due_at = resolution })
      ]
  ]

-- `pause`: stops the clock of a ticket that is not paused already. A ticket that is not there makes
-- the program throw, and nothing is written; its caller has just read the ticket.
unfoldable pub pause : Env → ℕ → ℕ → Db → Db
pause env ticket_id actor_id db = elim (find_ticket ticket_id db) [
  | none ↦ db
  | some ticket ↦
      if is_none ticket.sla_paused_at
      then write_history env.now ticket_id (some actor_id) sla_paused no_metadata
          (update_ticket env.now ticket_id (λ t. record t { sla_paused_at = some env.now }) db)
      else db
]

-- `new Date(due.getTime() + pausedMs)` for a due date that is still pending.
abbrev pub shift_due : Bool → Option ℕ → ℕ → ℕ → Option ℕ
shift_due true (some due) now paused_at = some (due + now - paused_at)
shift_due true none now paused_at = none
shift_due false due now paused_at = due

-- The row that `resume` writes for a ticket that was paused at `paused_at`.
unfoldable pub resumed_ticket : ℕ → ℕ → Ticket → Ticket
resumed_ticket now paused_at t = record t {
  sla_paused_at = none;
  response_due_at = shift_due (is_none t.first_response_at) t.response_due_at now paused_at;
  resolution_due_at = shift_due (is_none t.resolved_at) t.resolution_due_at now paused_at;
}

-- `Math.round(pausedMs / 60_000)`
abbrev pub rounded_minutes : ℕ → ℕ → ℤ
rounded_minutes now paused_at = floor_div (sub_ℕ (now + 30000) paused_at) 60000

-- `resume`: starts the clock of a paused ticket, and shifts the pending due dates by the pause.
unfoldable pub resume : Env → ℕ → ℕ → Db → Db
resume env ticket_id actor_id db = elim (find_ticket ticket_id db) [
  | none ↦ db
  | some ticket ↦ elim ticket.sla_paused_at [
    | none ↦ db
    | some paused_at ↦
        write_history env.now ticket_id (some actor_id) sla_resumed
          (paused_minutes (rounded_minutes env.now paused_at))
          (update_ticket env.now ticket_id (resumed_ticket env.now paused_at) db)
  ]
]
