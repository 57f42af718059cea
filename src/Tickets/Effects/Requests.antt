-- ===== src/Tickets/Effects/Requests.antt =====
-- Each endpoint's effect on the table of tickets (apps/backend/src/tickets/tickets.service.ts).
use sentinel_desk.Prelude.{
  ℕ, ◌≡◌, refl, sym, ◌∙◌, ap, inl, inr, ◌||◌, Option, none, some, List, arith, ok, find, modify,
  modify-modify, find-modify_self, Option-cases, Bool-cases, if◌then◌else◌,
}
use mathlib.Core.Option
use sentinel_desk.Schema.{AuthenticatedUser, Ticket}
use sentinel_desk.Store.{
  unless_rejected, Db, Env, update_ticket, insert_comment, write_history, notify, audit, trigger,
  broadcast_ticket_changed,
}
use sentinel_desk.Tickets.Access.{get_ticket_or_throw, find_one}
use sentinel_desk.Tickets.Create.{UploadedFile}
use sentinel_desk.Tickets.Update.{
  write_change_history, run_transition, UpdateTicketDto, Change, check_update, write_update, update,
  changed_ticket, sla_transition,
}
use sentinel_desk.Tickets.Lifecycle.{
  check_reopen, write_reopen, reopen, reopened_ticket, RateCsatDto, check_rate_csat,
  write_rate_csat, rate_csat, rated_ticket,
}
use sentinel_desk.Tickets.Reply.{
  CreateCommentDto, Reply, check_add_comment, report_reply, reply_audience, reply_comment,
  write_reply, write_add_comment, write_reply_ticket, add_comment, replied_ticket,
}
use sentinel_desk.Tickets.Routing.{
  check_assign, write_assign, assign, assigned_ticket, write_unassign, unassign, EscalateTicketDto,
  check_escalate, write_escalate, escalate, escalated_ticket, notify_escalation,
}
use sentinel_desk.Tickets.Links.{check_merge, write_merge, merge, merged_ticket}
use sentinel_desk.Tickets.Effects.{
  Effect, untouched, serve-Effect, rewrites, get_ticket_or_throw-ok,
}
use sentinel_desk.Tickets.Effects.Checks.{
  check_reopen-ok, check_rate_csat-ok, check_update-ok, check_add_comment-ok, check_assign-ok,
  check_escalate-ok, check_merge-ok,
}
use sentinel_desk.Tickets.Effects.Rows.{
  touched, reopened_ticket-RowStep, rated_ticket-RowStep, assigned_ticket-RowStep,
  escalated_ticket-RowStep, merged_ticket-RowStep, replied_ticket-RowStep, changed_ticket-RowStep,
  transition_row,
}
use sentinel_desk.Tickets.Effects.Frames.{
  tickets-save_attachments, tickets-proceed, tickets-report_reply, tickets-write_change_history,
  tickets-report_change, tickets-run_transition,
}

module _ (env : Env) (user : AuthenticatedUser) (id : ℕ) (db : Db) where
  pub reopen-Effect : Effect user db (reopen env user id db).1.tickets
  unfolding reopen update_ticket write_history audit broadcast_ticket_changed
  reopen-Effect =
      serve-Effect user db (check_reopen user id) (write_reopen env user id) (λ _. find_one user id)
        λ t e.
          rewrites user db id t (touched env.now reopened_ticket) _ (check_reopen-ok user id db t e)
            (reopened_ticket-RowStep env.now t) refl

  pub rate_csat-Effect :
      (dto : RateCsatDto) → Effect user db (rate_csat env user id dto db).1.tickets
  unfolding rate_csat update_ticket broadcast_ticket_changed
  rate_csat-Effect dto =
      serve-Effect user db (check_rate_csat user id) (write_rate_csat env user id dto)
        (λ _. find_one user id)
        λ t e.
          rewrites user db id t (touched env.now (rated_ticket env.now dto)) _
            (check_rate_csat-ok user id db t e) (rated_ticket-RowStep env.now dto t) refl

  tickets-update :
      (c : Change)
      → (write_change_history env.now user.id id c
          (update_ticket env.now id (changed_ticket env.now c) db)).tickets
        ≡ modify (λ u. u.id) id (touched env.now (changed_ticket env.now c)) db.tickets
  unfolding update_ticket
  tickets-update c =
      tickets-write_change_history env.now user.id id c
        (update_ticket env.now id (changed_ticket env.now c) db)

  -- The update and the SLA clock together write one row.
  pub tickets-write_update :
      (c : Change)
      → get_ticket_or_throw user id db ≡ ok c.ticket
      → (write_update env user id c db).tickets
        ≡ modify
            (λ u. u.id)
            id
            (λ u.
              transition_row
                (sla_transition c.ticket.status c.status)
                env.now
                (touched env.now (changed_ticket env.now c) u))
            db.tickets
  unfolding write_update broadcast_ticket_changed changed_ticket
  tickets-write_update c e =
      let tr = sla_transition c.ticket.status c.status in
      let row = touched env.now (changed_ticket env.now c) in
      let db1 =
        write_change_history env.now user.id id c
          (update_ticket env.now id (changed_ticket env.now c) db) in
      let written = tickets-update c in
      let found =
        ap (find (λ u. u.id) id) written
        ∙ find-modify_self (λ u. u.id) id row db.tickets (λ u. refl)
        ∙ ap (Option.map row) (get_ticket_or_throw-ok user id db c.ticket e).0 in
      tickets-report_change user id c (run_transition env id user.id tr db1)
      ∙ tickets-run_transition env id user.id tr db1 (row c.ticket) found
      ∙ ap (modify (λ u. u.id) id (transition_row tr env.now)) written
      ∙ modify-modify (λ u. u.id) id row (transition_row tr env.now) db.tickets (λ u. refl)

  pub update-Effect : (dto : UpdateTicketDto) → Effect user db (update env user id dto db).1.tickets
  unfolding update
  update-Effect dto =
      serve-Effect user db (check_update env user id dto) (write_update env user id)
        (λ _. find_one user id)
        λ c e.
          let read = check_update-ok env user id dto db c e in
          rewrites user db id c.ticket _ _ read (changed_ticket-RowStep env.now c c.ticket)
            (tickets-write_update c read)

  tickets-write_reply_ticket :
      (r : Reply) (before : Db)
      → before.tickets ≡ db.tickets
      → (write_reply_ticket env user id r before).tickets ≡ (
          if r.is_first_staff_reply || r.auto_reopen
          then modify (λ u. u.id) id (touched env.now (replied_ticket env.now r)) db.tickets
          else db.tickets)
  unfolding write_reply_ticket update_ticket write_history
  tickets-write_reply_ticket r before e = ground arith

  pub tickets-write_add_comment :
      (dto : CreateCommentDto) (files : List UploadedFile) (r : Reply)
      → (write_add_comment env user id dto files r db).1.tickets ≡ (
          if r.is_first_staff_reply || r.auto_reopen
          then modify (λ u. u.id) id (touched env.now (replied_ticket env.now r)) db.tickets
          else db.tickets)
  unfolding write_add_comment write_reply broadcast_ticket_changed write_history insert_comment
  tickets-write_add_comment dto files r =
      tickets-proceed _ _
        (report_reply user id r (reply_audience user r.ticket db)
          (reply_comment env user id dto r db))
        (tickets-report_reply user id r (reply_audience user r.ticket db)
          (reply_comment env user id dto r db))
      ∙ tickets-save_attachments env _ files _
      ∙ tickets-write_reply_ticket r _ refl

  pub add_comment-Effect :
      (dto : CreateCommentDto) (files : List UploadedFile)
      → Effect user db (add_comment env user id dto files db).1.tickets
  unfolding add_comment
  add_comment-Effect dto files =
      serve-Effect user db (check_add_comment user id dto)
        (λ r before. (write_add_comment env user id dto files r before).1)
        (λ r after.
          unless_rejected (write_add_comment env user id dto files r db).0 (find_one user id after))
        λ r e. elim (Bool-cases (r.is_first_staff_reply || r.auto_reopen)) [
          | inl writes ↦
              rewrites user db id r.ticket (touched env.now (replied_ticket env.now r)) _
                (check_add_comment-ok user id dto db r e)
                (replied_ticket-RowStep env.now r r.ticket)
                (tickets-write_add_comment dto files r ∙ rw writes)
          | inr idle ↦ untouched (tickets-write_add_comment dto files r ∙ rw idle)
        ]

  tickets-write_assign :
      (to : ℕ) (t : Ticket)
      → (write_assign env user id to t db).tickets
        ≡ modify (λ u. u.id) id (touched env.now (assigned_ticket (some to))) db.tickets
  unfolding write_assign update_ticket write_history notify audit broadcast_ticket_changed
  tickets-write_assign to t = ground arith

  pub assign-Effect : (to : ℕ) → Effect user db (assign env user id to db).1.tickets
  unfolding assign
  assign-Effect to =
      serve-Effect user db (check_assign user id to) (write_assign env user id to)
        (λ _. find_one user id)
        λ t e.
          rewrites user db id t (touched env.now (assigned_ticket (some to))) _
            (check_assign-ok user id to db t e) (assigned_ticket-RowStep env.now (some to) t)
            (tickets-write_assign to t)

  pub unassign-Effect : Effect user db (unassign env user id db).1.tickets
  unfolding unassign
  unassign-Effect =
      serve-Effect user db (get_ticket_or_throw user id) (write_unassign env user id)
        (λ _. find_one user id)
        λ t e. elim (Option-cases t.assignee_id) [
          | inl free ↦ untouched (rw (free, write_unassign))
          | inr (a, taken) ↦
              rewrites user db id t (touched env.now (assigned_ticket none)) _ e
                (assigned_ticket-RowStep env.now none t)
                (rw (taken, write_unassign)
                  (unfold update_ticket write_history audit broadcast_ticket_changed in refl))
        ]

  tickets-notify_escalation :
      (dto : EscalateTicketDto) (t : Ticket) (to : Option ℕ) (before : Db)
      → (notify_escalation user id dto t to before).tickets ≡ before.tickets
  unfolding notify_escalation notify
  tickets-notify_escalation dto t to before = ground arith

  tickets-write_escalate :
      (dto : EscalateTicketDto) (t : Ticket)
      → (write_escalate env user id dto t db).tickets
        ≡ modify (λ u. u.id) id (touched env.now (escalated_ticket dto)) db.tickets
  unfolding write_escalate update_ticket write_history trigger audit broadcast_ticket_changed
  tickets-write_escalate dto t = tickets-notify_escalation dto t _ _

  pub escalate-Effect :
      (dto : EscalateTicketDto) → Effect user db (escalate env user id dto db).1.tickets
  unfolding escalate
  escalate-Effect dto =
      serve-Effect user db (check_escalate user id dto) (write_escalate env user id dto)
        (λ _. find_one user id)
        λ t e.
          rewrites user db id t (touched env.now (escalated_ticket dto)) _
            (check_escalate-ok user id dto db t e) (escalated_ticket-RowStep env.now dto t)
            (tickets-write_escalate dto t)

  pub merge-Effect : (into : ℕ) → Effect user db (merge env user id into db).1.tickets
  unfolding merge update_ticket write_history audit broadcast_ticket_changed
  merge-Effect into =
      serve-Effect user db (check_merge user id into) (write_merge env user id)
        (λ _. find_one user id)
        λ m e.
          let (source, target, ne) = check_merge-ok user id into db m e in
          rewrites user db id m.source (touched env.now (merged_ticket env.now m.target.id)) _
            source
            (merged_ticket-RowStep env.now m.target.id m.source (λ same. ne (
              sym (get_ticket_or_throw-ok user id db m.source source).2
              ∙ same
              ∙ (get_ticket_or_throw-ok user into db m.target target).2)))
            refl
