-- ===== src/Tickets/Effects/Handle.antt =====
-- The effect of every request on the table of tickets
-- (apps/backend/src/tickets/tickets.service.ts, tickets.controller.ts).
use sentinel_desk.Prelude.{
  ℕ, ◌≡◌, ◌⊎◌, refl, ◌∙◌, inl, inr, true, not, ◌&&◌, List, [], ◌∷◌, ◌++◌, arith, Bool-cases,
}
use sentinel_desk.Schema.{AuthenticatedUser, is_staff, Ticket}
use sentinel_desk.Store.{
  unless_rejected, Db, Env, insert_ticket, insert_comment, insert_ticket_tag, write_history,
  take_ticket_number, emit, audit, trigger, broadcast_ticket_changed,
}
use sentinel_desk.Tickets.Access.{may_access, get_ticket_or_throw, find_one}
use sentinel_desk.Tickets.Create.{
  CreateTicketDto, UploadedFile, Draft, check_create, write_draft, report_create, write_create,
  create, new_ticket, next_key,
}
use sentinel_desk.Tickets.Labels.{
  add_tag, check_add_tag, write_add_tag, upsert_ticket_tag, remove_tag, write_remove_tag,
  delete_ticket_tags, watch, write_watch, unwatch, write_unwatch,
}
use sentinel_desk.Tickets.Links.{
  SplitTicketDto, Extract, check_split, write_split, split_ticket, split_off,
}
use sentinel_desk.Tickets.Effects.{
  Effect, untouched, added, serve-Effect, hidden, Effect-hidden, get_ticket_or_throw-ok,
}
use sentinel_desk.Tickets.Endpoints.{
  Request, creates, shows, updates, reopens, rates, comments, assigns, transfers, unassigns,
  escalates, merges, splits, adds_tag, removes_tag, watches, unwatches, needs_staff, dispatch,
  handle,
}
use sentinel_desk.Tickets.Effects.Requests.{
  reopen-Effect, rate_csat-Effect, update-Effect, add_comment-Effect, assign-Effect,
  unassign-Effect, escalate-Effect, merge-Effect,
}
use sentinel_desk.Tickets.Effects.Checks.{check_create-ok, check_split-ok}
use sentinel_desk.Tickets.Effects.Rows.{new_ticket-IsSound}
use sentinel_desk.Tickets.Effects.Frames.{
  tickets-save_attachments, tickets-proceed, tickets-insert_ticket_tags, tickets-copy_comments,
}

module _ (env : Env) (user : AuthenticatedUser) (db : Db) where
  pub add_tag-Effect : (id tag : ℕ) → Effect user db (add_tag env user id tag db).1.tickets
  unfolding add_tag upsert_ticket_tag insert_ticket_tag write_history broadcast_ticket_changed
  add_tag-Effect id tag =
      serve-Effect user db (check_add_tag user id tag) (write_add_tag env user id tag)
        (λ _. find_one user id) λ t e. untouched (ground arith)

  pub remove_tag-Effect : (id tag : ℕ) → Effect user db (remove_tag env user id tag db).1.tickets
  unfolding remove_tag delete_ticket_tags write_history broadcast_ticket_changed
  remove_tag-Effect id tag =
      serve-Effect user db (get_ticket_or_throw user id) (write_remove_tag env user id tag)
        (λ _. find_one user id) λ t e. untouched refl

  pub watch-Effect : (id : ℕ) → Effect user db (watch user id db).1.tickets
  unfolding watch
  watch-Effect id =
      serve-Effect user db (get_ticket_or_throw user id) (λ _. write_watch id user.id)
        (λ _. find_one user id) λ t e. untouched (ground arith)

  pub unwatch-Effect : (id : ℕ) → Effect user db (unwatch user id db).1.tickets
  unfolding unwatch
  unwatch-Effect id =
      serve-Effect user db (get_ticket_or_throw user id) (λ _. write_unwatch id user.id)
        (λ _. find_one user id) λ t e. untouched refl

  pub own_or_staff :
      (t : Ticket)
      → t.organization_id ≡ user.organization_id
      → (is_staff user ≡ true) ⊎ (t.requester_id ≡ user.id)
      → may_access user t ≡ true
  own_or_staff t o h = ground arith

  pub tickets-write_create :
      (dto : CreateTicketDto) (files : List UploadedFile) (d : Draft)
      → (write_create env user dto files d db).1.tickets
        ≡ db.tickets
          ++ new_ticket env
              (next_key env db)
              user
              d.number
              dto.subject
              d.priority
              d.requester_id
              d.due_dates
            ∷ []
  unfolding write_create write_draft report_create trigger audit emit write_history insert_comment
      insert_ticket take_ticket_number
  tickets-write_create dto files d =
      tickets-proceed _ _ _ (λ d. refl)
      ∙ tickets-save_attachments env _ files _
      ∙ tickets-insert_ticket_tags _ dto.tag_ids _

  create-Effect :
      (dto : CreateTicketDto) (files : List UploadedFile)
      → Effect user db (create env user dto files db).1.tickets
  unfolding create
  create-Effect dto files =
      serve-Effect user db (check_create env user dto)
        (λ d before. (write_create env user dto files d before).1)
        (λ d after.
          unless_rejected (write_create env user dto files d db).0
            (find_one user (next_key env db) after))
        λ d e.
          let t =
            new_ticket env (next_key env db) user d.number dto.subject d.priority d.requester_id
              d.due_dates in
          added t (own_or_staff t refl (check_create-ok env user dto db d e))
            (new_ticket-IsSound env (next_key env db) user d.number dto.subject d.priority
              d.requester_id d.due_dates)
            (tickets-write_create dto files d)

  pub tickets-write_split :
      (id : ℕ) (dto : SplitTicketDto) (x : Extract)
      → (write_split env user id dto x db).tickets
        ≡ db.tickets ++ split_off env (next_key env db) user dto.subject x ∷ []
  unfolding write_split audit emit write_history insert_ticket take_ticket_number
      broadcast_ticket_changed
  tickets-write_split id dto x = tickets-copy_comments env _ x.comments_to_copy _

  split_ticket-Effect :
      (id : ℕ) (dto : SplitTicketDto) → Effect user db (split_ticket env user id dto db).1.tickets
  unfolding split_ticket
  split_ticket-Effect id dto =
      serve-Effect user db (check_split env user id dto) (write_split env user id dto)
        (λ _. find_one user (next_key env db))
        λ x e.
          let may =
            (get_ticket_or_throw-ok user id db x.source
              (check_split-ok env user id dto db x e)).1 in
          added (split_off env (next_key env db) user dto.subject x) (ground arith) (ground arith)
            (tickets-write_split id dto x)

  dispatch-Effect : (r : Request) → Effect user db (dispatch env user r db).1.tickets
  unfolding dispatch
  dispatch-Effect (creates dto files) = create-Effect dto files
  dispatch-Effect (shows id) = untouched refl
  dispatch-Effect (updates id dto) = update-Effect env user id db dto
  dispatch-Effect (reopens id) = reopen-Effect env user id db
  dispatch-Effect (rates id dto) = rate_csat-Effect env user id db dto
  dispatch-Effect (comments id dto files) = add_comment-Effect env user id db dto files
  dispatch-Effect (assigns id to) = assign-Effect env user id db to
  dispatch-Effect (transfers id to) = assign-Effect env user id db to
  dispatch-Effect (unassigns id) = unassign-Effect env user id db
  dispatch-Effect (escalates id dto) = escalate-Effect env user id db dto
  dispatch-Effect (merges id into) = merge-Effect env user id db into
  dispatch-Effect (splits id dto) = split_ticket-Effect id dto
  dispatch-Effect (adds_tag id tag) = add_tag-Effect id tag
  dispatch-Effect (removes_tag id tag) = remove_tag-Effect id tag
  dispatch-Effect (watches id) = watch-Effect id
  dispatch-Effect (unwatches id) = unwatch-Effect id

  -- Every request leaves the table of tickets alone, rewrites one row that the caller may access,
  -- or adds one sound row that the caller may access. A rewritten row keeps its key, organization,
  -- number, requester, origin and time of creation, and stays sound.
  pub handle-Effect : (r : Request) → Effect user db (handle env user r db).1.tickets
  unfolding handle
  handle-Effect r = elim (Bool-cases (needs_staff r && not (is_staff user))) [
    | inl denied ↦ rw denied (untouched refl)
    | inr let_in ↦ rw let_in (dispatch-Effect r)
  ]

  -- A request leaves every ticket that its caller may not access as it is, and in its place: those
  -- of other organizations, and for a customer those of other requesters.
  pub handle-hidden :
      (r : Request) → hidden user (handle env user r db).1.tickets ≡ hidden user db.tickets
  handle-hidden r = Effect-hidden user db _ (handle-Effect r)
