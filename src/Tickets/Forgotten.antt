-- ===== src/Tickets/Forgotten.antt =====
-- Waiting tickets that are finished and reopened (apps/backend/src/tickets/tickets.service.ts: update and
-- reopen, with the conditions of apps/backend/src/sla/sla-breach-check.service.ts).
use mathlib.Core.Option
use sentinel_desk.Prelude.{
  ℕ, ◌≡◌, refl, ◌∙◌, ap, true, false, none, some, arith, find, find-modify_self, ok,
}
use sentinel_desk.Schema.{AuthenticatedUser, is_staff, Ticket, TicketStatus, opened, status_eq}
use sentinel_desk.Store.{
  Db, Env, find_ticket, update_ticket, write_history, audit, broadcast_ticket_changed, serve,
}
use sentinel_desk.Sla.Service.{no_change}
use sentinel_desk.Sla.Sweep.{
  is_response_candidate, is_resolution_candidate, is_escalation_candidate,
}
use sentinel_desk.Tickets.Access.{get_ticket_or_throw}
use sentinel_desk.Tickets.Update.{
  UpdateTicketDto, Change, is_pausing, stays, check_update, changed_ticket, sla_transition, update,
}
use sentinel_desk.Tickets.Lifecycle.{
  is_finished, check_reopen, write_reopen, reopen, reopened_ticket,
}
use sentinel_desk.Tickets.Effects.{get_ticket_or_throw-ok, get_ticket_or_throw-found}
use sentinel_desk.Tickets.Effects.Rows.{touched, transition_row}
use sentinel_desk.Tickets.Effects.Requests.{tickets-write_update}

-- A PATCH that sets the status alone.
abbrev pub only_status : TicketStatus → UpdateTicketDto
only_status to = record { subject = none; priority = none; status = some to }

abbrev pub status_change : Ticket → TicketStatus → Change
status_change t to = record {
  ticket = t;
  subject = none;
  priority = none;
  status = some to;
  due_dates = no_change;
}

pub check_update-only_status :
    (env : Env) (user : AuthenticatedUser) (id : ℕ) (db : Db) (t : Ticket) (to : TicketStatus)
    → is_staff user ≡ true
    → get_ticket_or_throw user id db ≡ ok t
    → status_eq to t.status ≡ false
    → check_update env user id (only_status to) db ≡ ok (status_change t to)
unfolding check_update
check_update-only_status env user id db t to staff found differs = ground arith

-- The row after a status that the clock does not follow was set.
abbrev pub settled : ℕ → Ticket → TicketStatus → Ticket
settled now t to = touched now (changed_ticket now (status_change t to)) t

find_ticket-only_status :
    (env : Env) (user : AuthenticatedUser) (id : ℕ) (db : Db) (t : Ticket) (to : TicketStatus)
    → is_staff user ≡ true
    → get_ticket_or_throw user id db ≡ ok t
    → is_pausing t.status ≡ true
    → is_finished to ≡ true
    → find_ticket id (update env user id (only_status to) db).1 ≡ some (settled env.now t to)
unfolding update changed_ticket
find_ticket-only_status env user id db t to staff found pausing finished =
    let c = status_change t to in
    let put : sla_transition t.status (some to) ≡ stays = ground arith in
    let checked = check_update-only_status env user id db t to staff found (ground arith) in
    rw (checked, serve)
      (ap (find (λ u. u.id) id) (tickets-write_update env user id db c found)
        ∙ find-modify_self (λ u. u.id) id
            (λ u.
              transition_row (sla_transition t.status (some to)) env.now
                (touched env.now (changed_ticket env.now c) u))
            db.tickets (λ a. rw put refl)
        ∙ rw (put, (get_ticket_or_throw-ok user id db t found).0) refl)

find_ticket-reopen :
    (env : Env) (user : AuthenticatedUser) (id : ℕ) (db : Db) (t : Ticket)
    → get_ticket_or_throw user id db ≡ ok t
    → is_finished t.status ≡ true
    → find_ticket id (reopen env user id db).1 ≡ some (touched env.now reopened_ticket t)
unfolding reopen check_reopen write_reopen reopened_ticket update_ticket write_history audit
    broadcast_ticket_changed
find_ticket-reopen env user id db t found finished =
    let checked : check_reopen user id db ≡ ok t = ground arith in
    rw (checked, serve)
      (find-modify_self (λ u. u.id) id (touched env.now reopened_ticket) db.tickets (λ u. refl)
        ∙ ap (Option.map (touched env.now reopened_ticket))
            (get_ticket_or_throw-ok user id db t found).0)

-- A staff member resolves or closes a paused PENDING or ON_HOLD ticket by an update, and it is
-- reopened later: it is open again, its SLA clock still stopped, and no check of the sweep will
-- select it at any time.
pub reopen-update :
    (env later : Env) (user : AuthenticatedUser) (id : ℕ) (db : Db) (t : Ticket) (to : TicketStatus)
    (at now : ℕ)
    → is_staff user ≡ true
    → get_ticket_or_throw user id db ≡ ok t
    → is_pausing t.status ≡ true
    → t.sla_paused_at ≡ some at
    → is_finished to ≡ true
    → (u : Ticket) × (find_ticket id
          (reopen later user id (update env user id (only_status to) db).1).1
        ≡ some u)
      × (u.status ≡ opened)
      × (u.sla_paused_at ≡ some at)
      × (is_response_candidate now u ≡ false)
      × (is_resolution_candidate now u ≡ false)
      × (is_escalation_candidate u ≡ false)
unfolding reopened_ticket changed_ticket is_response_candidate is_resolution_candidate
    is_escalation_candidate
reopen-update env later user id db t to at now staff found pausing paused finished =
    let db1 = (update env user id (only_status to) db).1 in
    let there = find_ticket-only_status env user id db t to staff found pausing finished in
    let may = (get_ticket_or_throw-ok user id db t found).1 in
    (
      touched later.now reopened_ticket (settled env.now t to),
      find_ticket-reopen later user id db1 (settled env.now t to)
          (get_ticket_or_throw-found user id db1 (settled env.now t to) there may) finished,
      refl,
      paused,
      ground arith,
      ground arith,
      ground arith,
    )
