-- ===== src/Tickets/Customers.antt =====
-- What a customer can do to a ticket (apps/backend/src/tickets/tickets.service.ts, behind the role
-- guard of apps/backend/src/tickets/tickets.controller.ts).
use sentinel_desk.Prelude.{
  ℕ, ◌+◌, ◌≡◌, ◌⊎◌, refl, ◌∙◌, inl, inr, true, false, ◌||◌, none, some, List, [], ◌∷◌, ◌++◌, arith,
  Result, ok, modify, Bool-cases, Result-cases,
}
use sentinel_desk.Schema.{AuthenticatedUser, is_staff, Ticket, opened}
use sentinel_desk.Store.{
  unless_rejected, Db, Env, find_ticket, update_ticket, broadcast_ticket_changed, audit,
  write_history, serve,
}
use sentinel_desk.Tickets.Access.{get_ticket_or_throw, find_one}
use sentinel_desk.Tickets.Create.{
  CreateTicketDto, UploadedFile, check_create, write_create, create, next_key,
}
use sentinel_desk.Tickets.Update.{
  UpdateTicketDto, Change, check_update, write_update, update, changed_ticket,
}
use sentinel_desk.Tickets.Lifecycle.{
  is_finished, check_reopen, write_reopen, reopen, reopened_ticket, RateCsatDto, check_rate_csat,
  write_rate_csat, rate_csat, rated_ticket,
}
use sentinel_desk.Tickets.Reply.{
  CreateCommentDto, Reply, check_add_comment, write_add_comment, add_comment, replied_ticket,
}
use sentinel_desk.Tickets.Labels.{write_watch, watch, write_unwatch, unwatch}
use sentinel_desk.Tickets.Endpoints.{
  Request, creates, shows, updates, reopens, rates, comments, assigns, transfers, unassigns,
  escalates, merges, splits, adds_tag, removes_tag, watches, unwatches, needs_staff, dispatch,
  handle,
}
use sentinel_desk.Tickets.Effects.{get_ticket_or_throw-ok}
use sentinel_desk.Tickets.Effects.Checks.{
  check_reopen-ok, check_rate_csat-ok, check_update-ok, check_add_comment-ok, check_create-ok,
}
use sentinel_desk.Tickets.Effects.Rows.{touched}
use sentinel_desk.Tickets.Effects.Requests.{tickets-write_update, tickets-write_add_comment}
use sentinel_desk.Tickets.Effects.Handle.{tickets-write_create}

-- What a customer may make of a row: the triage and the SLA clock stay, and the status changes only
-- from RESOLVED or CLOSED to OPEN, which is counted.
pub record CustomerStep (t u : Ticket) : Type 0 where
  pub same_priority : u.priority ≡ t.priority
  pub same_assignee : u.assignee_id ≡ t.assignee_id
  pub same_merge : u.merged_into_id ≡ t.merged_into_id
  pub same_response_due : u.response_due_at ≡ t.response_due_at
  pub same_resolution_due : u.resolution_due_at ≡ t.resolution_due_at
  pub same_first_response : u.first_response_at ≡ t.first_response_at
  pub same_pause : u.sla_paused_at ≡ t.sla_paused_at
  pub same_breaches :
      (u.response_breached ≡ t.response_breached) × (u.resolution_breached ≡ t.resolution_breached)
  pub reopens_or_keeps :
      ((u.status ≡ t.status) × (u.reopened_count ≡ t.reopened_count))
      ⊎ ((is_finished t.status ≡ true)
          × (u.status ≡ opened)
          × (u.reopened_count ≡ t.reopened_count + 1))

pub data CustomerEffect (user : AuthenticatedUser) (db : Db) (after : List Ticket) : Type 0 where
  nothing : after ≡ db.tickets → CustomerEffect user db after
  edits :
      (id : ℕ) (t : Ticket) (f : Ticket → Ticket)
      → find_ticket id db ≡ some t
      → t.requester_id ≡ user.id
      → CustomerStep t (f t)
      → after ≡ modify (λ u. u.id) id f db.tickets
      → CustomerEffect user db after
  files :
      (t : Ticket)
      → t.requester_id ≡ user.id
      → t.status ≡ opened
      → t.assignee_id ≡ none
      → after ≡ db.tickets ++ (t ∷ [])
      → CustomerEffect user db after

module _ (env : Env) (user : AuthenticatedUser) (db : Db) (outsider : is_staff user ≡ false) where
  serve-CustomerEffect :
      {A B : Type 0} (check : Db → Result A) (writes : A → Db → Db) (answer : A → Db → Result B)
      → ((a : A) → check db ≡ ok a → CustomerEffect user db (writes a db).tickets)
      → CustomerEffect user db (serve check writes answer db).1.tickets
  serve-CustomerEffect check writes answer h = elim (Result-cases (check db)) [
    | inl (e, p) ↦ rw (p, serve) (nothing refl)
    | inr (a, p) ↦ rw (p, serve) (h a p)
  ]

  -- A row of the customer's own, rewritten.
  edits_own :
      (id : ℕ) (t : Ticket) (f : Ticket → Ticket) (after : List Ticket)
      → get_ticket_or_throw user id db ≡ ok t
      → CustomerStep t (f t)
      → after ≡ modify (λ u. u.id) id f db.tickets
      → CustomerEffect user db after
  edits_own id t f after e s p =
      let (found, may, _) = get_ticket_or_throw-ok user id db t e in
      edits id t f found (ground arith) s p

  -- Of the fields of an update, a customer's leaves the subject alone.
  check_update-customer :
      (id : ℕ) (dto : UpdateTicketDto) (c : Change)
      → check_update env user id dto db ≡ ok c
      → (c.priority ≡ none)
        × (c.status ≡ none)
        × (c.due_dates.response_due_at ≡ none)
        × (c.due_dates.resolution_due_at ≡ none)
  unfolding check_update
  check_update-customer id dto c h = elim (Result-cases (get_ticket_or_throw user id db)) [
    | inl (e, p) ↦ ground arith
    | inr (t, p) ↦ ground arith
  ]

  check_add_comment-customer :
      (id : ℕ) (dto : CreateCommentDto) (r : Reply)
      → check_add_comment user id dto db ≡ ok r
      → (r.is_first_staff_reply ≡ false)
        × ((r.auto_reopen ≡ false) ⊎ (is_finished r.ticket.status ≡ true))
  unfolding check_add_comment
  check_add_comment-customer id dto r h = ground arith

  update-CustomerEffect :
      (id : ℕ) (dto : UpdateTicketDto)
      → CustomerEffect user db (update env user id dto db).1.tickets
  unfolding update changed_ticket
  update-CustomerEffect id dto =
      serve-CustomerEffect (check_update env user id dto) (write_update env user id)
        (λ _. find_one user id)
        λ c e.
          let read = check_update-ok env user id dto db c e in
          let limits = check_update-customer id dto c e in
          edits_own id c.ticket _ _ read (ground (arith, limits))
            (tickets-write_update env user id db c read)

  reopen-CustomerEffect : (id : ℕ) → CustomerEffect user db (reopen env user id db).1.tickets
  unfolding reopen update_ticket write_history audit broadcast_ticket_changed check_reopen
      reopened_ticket
  reopen-CustomerEffect id =
      serve-CustomerEffect (check_reopen user id) (write_reopen env user id) (λ _. find_one user id)
        λ t e.
          edits_own id t (touched env.now reopened_ticket) _ (check_reopen-ok user id db t e)
            (ground arith) refl

  rate_csat-CustomerEffect :
      (id : ℕ) (dto : RateCsatDto) → CustomerEffect user db (rate_csat env user id dto db).1.tickets
  unfolding rate_csat update_ticket broadcast_ticket_changed rated_ticket
  rate_csat-CustomerEffect id dto =
      serve-CustomerEffect (check_rate_csat user id) (write_rate_csat env user id dto)
        (λ _. find_one user id)
        λ t e.
          edits_own id t (touched env.now (rated_ticket env.now dto)) _
            (check_rate_csat-ok user id db t e) (ground arith) refl

  add_comment-CustomerEffect :
      (id : ℕ) (dto : CreateCommentDto) (fs : List UploadedFile)
      → CustomerEffect user db (add_comment env user id dto fs db).1.tickets
  unfolding add_comment replied_ticket reopened_ticket
  add_comment-CustomerEffect id dto fs =
      serve-CustomerEffect (check_add_comment user id dto)
        (λ r before. (write_add_comment env user id dto fs r before).1)
        (λ r after.
          unless_rejected (write_add_comment env user id dto fs r db).0 (find_one user id after))
        λ r e.
          let limits = check_add_comment-customer id dto r e in
          let written = tickets-write_add_comment env user id db dto fs r in
          elim (Bool-cases (r.is_first_staff_reply || r.auto_reopen)) [
            | inl writes ↦
                edits_own id r.ticket (touched env.now (replied_ticket env.now r)) _
                  (check_add_comment-ok user id dto db r e) (ground (arith, limits))
                  (written ∙ rw writes)
            | inr idle ↦ nothing (written ∙ rw idle)
          ]

  create-CustomerEffect :
      (dto : CreateTicketDto) (fs : List UploadedFile)
      → CustomerEffect user db (create env user dto fs db).1.tickets
  unfolding create
  create-CustomerEffect dto fs =
      serve-CustomerEffect (check_create env user dto)
        (λ d before. (write_create env user dto fs d before).1)
        (λ d after.
          unless_rejected (write_create env user dto fs d db).0
            (find_one user (next_key env db) after))
        λ d e.
          let mine = check_create-ok env user dto db d e in
          files _ (ground (arith, mine)) refl refl (tickets-write_create env user db dto fs d)

  watch-CustomerEffect : (id : ℕ) → CustomerEffect user db (watch user id db).1.tickets
  unfolding watch write_watch
  watch-CustomerEffect id =
      serve-CustomerEffect (get_ticket_or_throw user id) (λ _. write_watch id user.id)
        (λ _. find_one user id) λ t e. nothing (ground arith)

  unwatch-CustomerEffect : (id : ℕ) → CustomerEffect user db (unwatch user id db).1.tickets
  unfolding unwatch write_unwatch
  unwatch-CustomerEffect id =
      serve-CustomerEffect (get_ticket_or_throw user id) (λ _. write_unwatch id user.id)
        (λ _. find_one user id) λ t e. nothing refl

  dispatch-CustomerEffect :
      (r : Request)
      → needs_staff r ≡ false
      → CustomerEffect user db (dispatch env user r db).1.tickets
  unfolding dispatch watch unwatch
  dispatch-CustomerEffect (creates dto fs) h = create-CustomerEffect dto fs
  dispatch-CustomerEffect (shows id) h = nothing refl
  dispatch-CustomerEffect (updates id dto) h = update-CustomerEffect id dto
  dispatch-CustomerEffect (reopens id) h = reopen-CustomerEffect id
  dispatch-CustomerEffect (rates id dto) h = rate_csat-CustomerEffect id dto
  dispatch-CustomerEffect (comments id dto fs) h = add_comment-CustomerEffect id dto fs
  dispatch-CustomerEffect (assigns id to) h = ground arith
  dispatch-CustomerEffect (transfers id to) h = ground arith
  dispatch-CustomerEffect (unassigns id) h = ground arith
  dispatch-CustomerEffect (escalates id dto) h = ground arith
  dispatch-CustomerEffect (merges id into) h = ground arith
  dispatch-CustomerEffect (splits id dto) h = ground arith
  dispatch-CustomerEffect (adds_tag id tag) h = ground arith
  dispatch-CustomerEffect (removes_tag id tag) h = ground arith
  dispatch-CustomerEffect (watches id) h = watch-CustomerEffect id
  dispatch-CustomerEffect (unwatches id) h = unwatch-CustomerEffect id

  -- Whatever a customer asks for, at most one ticket is concerned: an own ticket is filed, open and
  -- assigned to no one, or an own ticket is rewritten, and then its priority, its assignee, its SLA
  -- clock and its breaches stay, and its status changes only from RESOLVED or CLOSED to OPEN, which
  -- the count of reopenings shows.
  pub handle-CustomerEffect :
      (r : Request) → CustomerEffect user db (handle env user r db).1.tickets
  unfolding handle
  handle-CustomerEffect r = elim (Bool-cases (needs_staff r)) [
    | inl staffed ↦ rw (staffed, outsider) (nothing refl)
    | inr open_to_all ↦ rw open_to_all (dispatch-CustomerEffect r open_to_all)
  ]
