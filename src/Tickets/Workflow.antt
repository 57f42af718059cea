-- ===== src/Tickets/Workflow.antt =====
-- A ticket that waits and is taken up again: two updates of its status, with the SLA clock behind
-- them (apps/backend/src/tickets/tickets.service.ts: update, apps/backend/src/sla/sla.service.ts).
use mathlib.Core.Option
use sentinel_desk.Prelude.{
  ℕ, ◌≤◌, ◌≡◌, refl, ◌∙◌, ap, true, false, none, some, arith, find, find-modify_self, ok, is_none,
}
use sentinel_desk.Schema.{
  AuthenticatedUser, is_staff, Ticket, TicketStatus, opened, pending, on_hold, resolved, closed,
  status_eq,
}
use sentinel_desk.Store.{Db, Env, find_ticket, serve}
use sentinel_desk.Sla.Service.{resumed_ticket}
use sentinel_desk.Tickets.Access.{get_ticket_or_throw}
use sentinel_desk.Tickets.Update.{
  SlaTransition, stays, pauses, resumes, is_pausing, changed_ticket, sla_transition, update,
}
use sentinel_desk.Tickets.Effects.{get_ticket_or_throw-ok, get_ticket_or_throw-found}
use sentinel_desk.Tickets.Effects.Rows.{touched, transition_row}
use sentinel_desk.Tickets.Effects.Requests.{tickets-write_update}
use sentinel_desk.Tickets.Clock.{
  LeavesAsMuch, shift_due-LeavesAsMuch, id-paused_row, id-resumed_row,
}
use sentinel_desk.Tickets.Forgotten.{only_status, status_change, settled, check_update-only_status}

id-transition_row :
    (tr : SlaTransition) (now : ℕ) (t : Ticket) → (transition_row tr now t).id ≡ t.id
id-transition_row stays now t = refl
id-transition_row pauses now t = id-paused_row now t
id-transition_row resumes now t = id-resumed_row now t

-- The row after an update of the status alone.
find_ticket-set_status :
    (env : Env) (user : AuthenticatedUser) (id : ℕ) (db : Db) (t : Ticket) (to : TicketStatus)
    → is_staff user ≡ true
    → get_ticket_or_throw user id db ≡ ok t
    → status_eq to t.status ≡ false
    → find_ticket id (update env user id (only_status to) db).1
      ≡ some (transition_row (sla_transition t.status (some to)) env.now (settled env.now t to))
unfolding update changed_ticket
find_ticket-set_status env user id db t to staff found differs =
    let c = status_change t to in
    let tr = sla_transition t.status (some to) in
    let row = touched env.now (changed_ticket env.now c) in
    rw (check_update-only_status env user id db t to staff found differs, serve)
      (ap (find (λ u. u.id) id) (tickets-write_update env user id db c found)
        ∙ find-modify_self (λ u. u.id) id (λ u. transition_row tr env.now (row u)) db.tickets
            (λ a. id-transition_row tr env.now (row a))
        ∙ ap (Option.map (λ u. transition_row tr env.now (row u)))
            (get_ticket_or_throw-ok user id db t found).0)

differs :
    (from to : TicketStatus)
    → is_pausing from ≡ false
    → is_pausing to ≡ true
    → status_eq to from ≡ false
differs from to h g = ground arith

differs_back : (from : TicketStatus) → is_pausing from ≡ true → status_eq opened from ≡ false
differs_back from h = ground arith

waits_row :
    (now : ℕ) (t : Ticket) (to : TicketStatus)
    → t.status ≡ opened
    → t.sla_paused_at ≡ none
    → is_pausing to ≡ true
    → transition_row (sla_transition t.status (some to)) now (settled now t to)
      ≡ record t { status = to; sla_paused_at = some now; updated_at = now }
unfolding changed_ticket
waits_row now t pending h g e = rw (h, g) refl
waits_row now t on_hold h g e = rw (h, g) refl
waits_row now t opened h g e = absurd (ground arith)
waits_row now t resolved h g e = absurd (ground arith)
waits_row now t closed h g e = absurd (ground arith)

back_row :
    (now later : ℕ) (t : Ticket) (from : TicketStatus)
    → is_pausing from ≡ true
    → transition_row (sla_transition from (some opened)) later (
        settled later
          (record t { status = from; sla_paused_at = some now; updated_at = now })
          opened)
      ≡ record (resumed_ticket later now t) { status = opened; updated_at = later }
unfolding changed_ticket resumed_ticket
back_row now later t pending e = refl
back_row now later t on_hold e = refl
back_row now later t opened e = absurd (ground arith)
back_row now later t resolved e = absurd (ground arith)
back_row now later t closed e = absurd (ground arith)

-- A member of the staff sets an open, running ticket to PENDING or ON_HOLD and later back to OPEN:
-- the ticket is open, its clock runs, and each due date that is still pending leaves as much time
-- as it did when the ticket began to wait; due dates that were met stay.
pub update-update :
    (env later : Env) (user : AuthenticatedUser) (id : ℕ) (db : Db) (t : Ticket) (to : TicketStatus)
    → is_staff user ≡ true
    → get_ticket_or_throw user id db ≡ ok t
    → t.status ≡ opened
    → t.sla_paused_at ≡ none
    → is_pausing to ≡ true
    → env.now ≤ later.now
    → (u : Ticket) × (find_ticket id
          (update later user id (only_status opened) (update env user id (only_status to) db).1).1
        ≡ some u)
      × (u.status ≡ opened)
      × (u.sla_paused_at ≡ none)
      × LeavesAsMuch
          (is_none t.first_response_at)
          t.response_due_at
          u.response_due_at
          env.now
          later.now
      × LeavesAsMuch
          (is_none t.resolved_at)
          t.resolution_due_at
          u.resolution_due_at
          env.now
          later.now
unfolding resumed_ticket changed_ticket
update-update env later user id db t to staff found open_ running waits order =
    let db1 = (update env user id (only_status to) db).1 in
    let waiting : Ticket = record t {
      status = to;
      sla_paused_at = some env.now;
      updated_at = env.now;
    } in
    let once : find_ticket id db1 ≡ some waiting =
      find_ticket-set_status env user id db t to staff found
        (differs t.status to (ap is_pausing open_) waits)
      ∙ ap some (waits_row env.now t to open_ running waits) in
    let there =
      get_ticket_or_throw-found user id db1 waiting once
        (get_ticket_or_throw-ok user id db t found).1 in
    let u : Ticket = record (resumed_ticket later.now env.now t) {
      status = opened;
      updated_at = later.now;
    } in
    (
      u,
      find_ticket-set_status later user id db1 waiting opened staff there (differs_back to waits)
          ∙ ap some (back_row env.now later.now t to waits),
      refl,
      refl,
      shift_due-LeavesAsMuch (is_none t.first_response_at) t.response_due_at env.now later.now
          order,
      shift_due-LeavesAsMuch (is_none t.resolved_at) t.resolution_due_at env.now later.now order,
    )
