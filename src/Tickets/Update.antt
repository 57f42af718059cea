-- ===== src/Tickets/Update.antt =====
-- Changes of a ticket's subject, priority and status (apps/backend/src/tickets/tickets.service.ts:
-- update).
use sentinel_desk.Prelude.{
  ℕ, Bool, true, false, not, ◌&&◌, ◌||◌, Option, none, some, [], ◌∷◌, Text, text_eq, Result, ok,
  ◌>>=◌, ◌>>◌, throw_if, forbidden, staff_only_fields, no_longer_editable, is_some, if◌then◌else◌,
}
use sentinel_desk.Schema.{
  AuthenticatedUser, is_staff, Ticket, TicketStatus, opened, pending, on_hold, resolved, closed,
  TicketPriority, status_eq, priority_eq, status_changed, priority_changed, statuses, priorities,
  ticket_priority_changed, ticket_status_changed, on_status_changed,
}
use sentinel_desk.Store.{
  Db, Env, update_ticket, write_history, broadcast_ticket_changed, audit, trigger, serve,
}
use sentinel_desk.Sla.Service.{
  DueDateChange, no_change, recompute_due_dates_for_priority_change, pause, resume,
}
use sentinel_desk.Tickets.Access.{get_ticket_or_throw, TicketDetail, find_one}

pub record UpdateTicketDto : Type 0 where
  pub subject : Option Text
  pub priority : Option TicketPriority
  pub status : Option TicketStatus

-- `dto.subject && dto.subject !== ticket.subject`; the empty text is falsy.
abbrev pub new_subject : Option Text → Ticket → Option Text
new_subject none ticket = none
new_subject (some []) ticket = none
new_subject (some (c ∷ cs)) ticket = if text_eq (c ∷ cs) ticket.subject then none else some (c ∷ cs)

-- `dto.priority && dto.priority !== ticket.priority`
abbrev pub new_priority : Option TicketPriority → Ticket → Option TicketPriority
new_priority none ticket = none
new_priority (some p) ticket = if priority_eq p ticket.priority then none else some p

-- `dto.status && dto.status !== ticket.status`
abbrev pub new_status : Option TicketStatus → Ticket → Option TicketStatus
new_status none ticket = none
new_status (some s) ticket = if status_eq s ticket.status then none else some s

-- `PAUSING_STATUSES.includes(status)`
abbrev pub is_pausing : TicketStatus → Bool
is_pausing pending = true
is_pausing on_hold = true
is_pausing _ = false

pub data SlaTransition : Type 0 where
  stays pauses resumes : SlaTransition

abbrev pub sla_transition : TicketStatus → Option TicketStatus → SlaTransition
sla_transition from none = stays
sla_transition from (some to) =
    if not (is_pausing from) && is_pausing to
    then pauses
    else if is_pausing from && status_eq to opened
    then resumes
    else stays

-- What `update` has settled when it starts to write.
pub record Change : Type 0 where
  pub ticket : Ticket
  pub subject : Option Text
  pub priority : Option TicketPriority
  pub status : Option TicketStatus
  pub due_dates : DueDateChange

abbrev pub due_dates_for : Env → ℕ → Option TicketPriority → Db → Result DueDateChange
due_dates_for env ticket_id none db = ok no_change
due_dates_for env ticket_id (some p) db = recompute_due_dates_for_priority_change env ticket_id p db

-- What a customer may change: neither priority nor status, and of a ticket that is under way.
abbrev pub guard_update : AuthenticatedUser → Ticket → UpdateTicketDto → Result (Unit {0})
guard_update user ticket dto =
    if is_staff user
    then ok tt
    else throw_if (is_some dto.priority || is_some dto.status) (forbidden staff_only_fields)
      >> throw_if (not (status_eq ticket.status opened) && not (status_eq ticket.status pending))
          (forbidden no_longer_editable)

unfoldable pub check_update : Env → AuthenticatedUser → ℕ → UpdateTicketDto → Db → Result Change
check_update env user ticket_id dto db = do
  ticket ← get_ticket_or_throw user ticket_id db
  guard_update user ticket dto
  due_dates ← due_dates_for env ticket_id (new_priority dto.priority ticket) db
  ok (record {
    ticket = ticket;
    subject = new_subject dto.subject ticket;
    priority = new_priority dto.priority ticket;
    status = new_status dto.status ticket;
    due_dates = due_dates;
  })

-- A column that `data` leaves out keeps its value.
abbrev pub set_column : {A : Type 0} → Option A → A → A
set_column none old = old
set_column (some new) old = new

abbrev pub set_date : Option ℕ → Option ℕ → Option ℕ
set_date none old = old
set_date (some t) old = some t

-- `resolvedAt` and `closedAt` follow the status that is set, and are not cleared.
abbrev pub resolved_by : ℕ → Option TicketStatus → Option ℕ → Option ℕ
resolved_by now (some resolved) old = some now
resolved_by now _ old = old

abbrev pub closed_by : ℕ → Option TicketStatus → Option ℕ → Option ℕ
closed_by now (some closed) old = some now
closed_by now _ old = old

-- The row after `ticket.update({ data })`.
unfoldable pub changed_ticket : ℕ → Change → Ticket → Ticket
changed_ticket now change t = record t {
  subject = set_column change.subject t.subject;
  priority = set_column change.priority t.priority;
  status = set_column change.status t.status;
  resolved_at = resolved_by now change.status t.resolved_at;
  closed_at = closed_by now change.status t.closed_at;
  response_due_at = set_date change.due_dates.response_due_at t.response_due_at;
  resolution_due_at = set_date change.due_dates.resolution_due_at t.resolution_due_at;
}

-- The history entries of a change, the priority's first.
abbrev pub log_priority : ℕ → ℕ → ℕ → TicketPriority → Option TicketPriority → Db → Db
log_priority now actor_id ticket_id from none db = db
log_priority now actor_id ticket_id from (some p) db =
    write_history now ticket_id (some actor_id) priority_changed (priorities from p) db

abbrev pub log_status : ℕ → ℕ → ℕ → TicketStatus → Option TicketStatus → Db → Db
log_status now actor_id ticket_id from none db = db
log_status now actor_id ticket_id from (some s) db =
    write_history now ticket_id (some actor_id) status_changed (statuses from s) db

unfoldable pub write_change_history : ℕ → ℕ → ℕ → Change → Db → Db
write_change_history now actor_id ticket_id change db =
    log_status now actor_id ticket_id change.ticket.status change.status
      (log_priority now actor_id ticket_id change.ticket.priority change.priority db)

unfoldable pub run_transition : Env → ℕ → ℕ → SlaTransition → Db → Db
run_transition env ticket_id actor_id stays db = db
run_transition env ticket_id actor_id pauses db = pause env ticket_id actor_id db
run_transition env ticket_id actor_id resumes db = resume env ticket_id actor_id db

-- The audit rows and the webhook of a change.
abbrev pub audit_priority : AuthenticatedUser → ℕ → TicketPriority → Option TicketPriority → Db → Db
audit_priority user ticket_id from none db = db
audit_priority user ticket_id from (some p) db =
    audit user.organization_id user.id (ticket_priority_changed from p) ticket_id db

abbrev pub audit_status : AuthenticatedUser → ℕ → TicketStatus → Option TicketStatus → Db → Db
audit_status user ticket_id from none db = db
audit_status user ticket_id from (some s) db =
    trigger user.organization_id on_status_changed ticket_id
      (audit user.organization_id user.id (ticket_status_changed from s) ticket_id db)

unfoldable pub report_change : AuthenticatedUser → ℕ → Change → Db → Db
report_change user ticket_id change db =
    audit_status user ticket_id change.ticket.status change.status
      (audit_priority user ticket_id change.ticket.priority change.priority db)

unfoldable pub write_update : Env → AuthenticatedUser → ℕ → Change → Db → Db
write_update env user ticket_id change db =
    let db1 =
      write_change_history env.now user.id ticket_id change
        (update_ticket env.now ticket_id (changed_ticket env.now change) db) in
    let db2 =
      run_transition env ticket_id user.id (sla_transition change.ticket.status change.status)
        db1 in
    broadcast_ticket_changed user.organization_id ticket_id
      (report_change user ticket_id change db2)

unfoldable pub update :
    Env → AuthenticatedUser → ℕ → UpdateTicketDto → Db → Result TicketDetail × Db
unfolding check_update write_update
update env user ticket_id dto db =
    serve (check_update env user ticket_id dto) (write_update env user ticket_id)
      (λ _. find_one user ticket_id) db
