-- ===== src/Tickets/Routing.antt =====
-- Who works on a ticket (apps/backend/src/tickets/tickets.service.ts: assign,
-- unassign, escalate).
use sentinel_desk.Prelude.{
  ℕ, not, Option, none, some, Text, Result, ok, ◌>>=◌, ◌>>◌, or_throw, throw_if, bad_request,
  bad_assignee, ◌==◌, or_default, if◌then◌else◌,
}
use sentinel_desk.Schema.{
  AuthenticatedUser, Ticket, TicketPriority, urgent, Member, TicketHistoryAction, assigned,
  transferred, unassigned, escalated, assignees, escalation, ticket_assigned, assigned_to_you,
  ticket_escalated, plain, AuditAction, ticket_transferred, ticket_assigned_to, ticket_unassigned,
  ticket_escalated_to, on_escalated,
}
use sentinel_desk.Store.{
  Db, Env, find_member, update_ticket, write_history, broadcast_ticket_changed, notify, audit,
  trigger, serve,
}
use sentinel_desk.Tickets.Access.{get_ticket_or_throw, TicketDetail, find_one}

-- A new assignee must be a member of the caller's organization.
abbrev pub check_member : AuthenticatedUser → ℕ → Db → Result Member
check_member user member_id db = do
  member ← or_throw (find_member member_id db) (bad_request bad_assignee)
  throw_if (not (member.organization_id == user.organization_id)) (bad_request bad_assignee)
  ok member

unfoldable pub check_assign : AuthenticatedUser → ℕ → ℕ → Db → Result Ticket
check_assign user ticket_id assignee_id db = do
  ticket ← get_ticket_or_throw user ticket_id db
  check_member user assignee_id db
  ok ticket

-- A ticket that somebody has is transferred.
abbrev pub assign_action : Option ℕ → TicketHistoryAction
assign_action none = assigned
assign_action (some _) = transferred

abbrev pub assign_audit : Option ℕ → ℕ → AuditAction
assign_audit none to = ticket_assigned_to none to
assign_audit (some from) to = ticket_transferred (some from) to

abbrev pub assigned_ticket : Option ℕ → Ticket → Ticket
assigned_ticket assignee_id t = record t { assignee_id = assignee_id }

unfoldable pub write_assign : Env → AuthenticatedUser → ℕ → ℕ → Ticket → Db → Db
write_assign env user ticket_id assignee_id ticket db =
    let db1 =
      write_history env.now ticket_id (some user.id) (assign_action ticket.assignee_id)
        (assignees ticket.assignee_id (some assignee_id))
        (update_ticket env.now ticket_id (assigned_ticket (some assignee_id)) db) in
    let db2 =
      if assignee_id == user.id
      then db1
      else notify
          (record {
            organization_id = user.organization_id;
            user_id = assignee_id;
            type = ticket_assigned;
            title = assigned_to_you ticket.number;
            body = plain ticket.subject;
            ticket_id = ticket_id;
          })
          db1 in
    broadcast_ticket_changed user.organization_id ticket_id (
      audit user.organization_id user.id (assign_audit ticket.assignee_id assignee_id) ticket_id
        db2)

unfoldable pub assign : Env → AuthenticatedUser → ℕ → ℕ → Db → Result TicketDetail × Db
unfolding check_assign write_assign
assign env user ticket_id assignee_id db =
    serve (check_assign user ticket_id assignee_id) (write_assign env user ticket_id assignee_id)
      (λ _. find_one user ticket_id) db

-- A ticket that nobody has is answered as it is.
unfoldable pub write_unassign : Env → AuthenticatedUser → ℕ → Ticket → Db → Db
write_unassign env user ticket_id ticket db = elim ticket.assignee_id [
  | none ↦ db
  | some from ↦ broadcast_ticket_changed user.organization_id ticket_id (
      audit user.organization_id user.id (ticket_unassigned from) ticket_id (
        write_history env.now ticket_id (some user.id) unassigned (assignees (some from) none)
          (update_ticket env.now ticket_id (assigned_ticket none) db)))
]

unfoldable pub unassign : Env → AuthenticatedUser → ℕ → Db → Result TicketDetail × Db
unfolding write_unassign
unassign env user ticket_id db =
    serve (get_ticket_or_throw user ticket_id) (write_unassign env user ticket_id)
      (λ _. find_one user ticket_id) db

pub record EscalateTicketDto : Type 0 where
  pub reason : Text
  pub new_assignee_id : Option ℕ
  pub priority : Option TicketPriority

abbrev pub check_new_assignee : AuthenticatedUser → Option ℕ → Db → Result (Unit {0})
check_new_assignee user none db = ok tt
check_new_assignee user (some id) db = check_member user id db >> ok tt

unfoldable pub check_escalate : AuthenticatedUser → ℕ → EscalateTicketDto → Db → Result Ticket
check_escalate user ticket_id dto db = do
  ticket ← get_ticket_or_throw user ticket_id db
  check_new_assignee user dto.new_assignee_id db
  ok ticket

-- `a ?? b`, where both may be null.
abbrev pub or_else : Option ℕ → Option ℕ → Option ℕ
or_else (some a) b = some a
or_else none b = b

unfoldable pub escalated_ticket : EscalateTicketDto → Ticket → Ticket
escalated_ticket dto t = record t {
  priority = or_default dto.priority urgent;
  assignee_id = or_else dto.new_assignee_id t.assignee_id;
}

-- The notification of an escalation, to whoever has the ticket now.
unfoldable pub notify_escalation :
    AuthenticatedUser → ℕ → EscalateTicketDto → Ticket → Option ℕ → Db → Db
notify_escalation user ticket_id dto ticket none db = db
notify_escalation user ticket_id dto ticket (some notify_id) db =
    if notify_id == user.id
    then db
    else notify
        (record {
          organization_id = user.organization_id;
          user_id = notify_id;
          type = ticket_assigned;
          title = ticket_escalated ticket.number;
          body = plain dto.reason;
          ticket_id = ticket_id;
        })
        db

unfoldable pub write_escalate : Env → AuthenticatedUser → ℕ → EscalateTicketDto → Ticket → Db → Db
write_escalate env user ticket_id dto ticket db =
    let db1 =
      write_history env.now ticket_id (some user.id) escalated
        (escalation dto.reason dto.new_assignee_id)
        (update_ticket env.now ticket_id (escalated_ticket dto) db) in
    let db2 =
      notify_escalation user ticket_id dto ticket (or_else dto.new_assignee_id ticket.assignee_id)
        db1 in
    let db3 =
      audit user.organization_id user.id
        (ticket_escalated_to dto.reason (or_default dto.priority urgent) dto.new_assignee_id)
        ticket_id db2 in
    broadcast_ticket_changed user.organization_id ticket_id
      (trigger user.organization_id on_escalated ticket_id db3)

unfoldable pub escalate :
    Env → AuthenticatedUser → ℕ → EscalateTicketDto → Db → Result TicketDetail × Db
unfolding check_escalate write_escalate
escalate env user ticket_id dto db =
    serve (check_escalate user ticket_id dto) (write_escalate env user ticket_id dto)
      (λ _. find_one user ticket_id) db
