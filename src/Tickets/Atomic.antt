-- ===== src/Tickets/Atomic.antt =====
-- Handlers that throw, and the answer that they read at their end
-- (apps/backend/src/tickets/tickets.service.ts: findOne).
pub mod Requests
use sentinel_desk.Prelude.{
  ℕ, ◌≡◌, refl, sym, ◌∙◌, ap, inl, inr, Bool, true, false, not, ◌&&◌, Option, none, some, List, [],
  ◌∷◌, ◌++◌, ◌⊎◌, arith, Result, ok, err, HttpError, ◌≢◌, ◌==◌, find, modify, Bool-cases,
  Result-cases, Option-cases,
}
use sentinel_desk.Schema.{AuthenticatedUser, is_staff, Ticket, Tag}
use sentinel_desk.Store.{serve_rejecting, unless_rejected, Db, Env, find_ticket, serve}
use sentinel_desk.Tickets.Access.{may_access, get_ticket_or_throw, TicketDetail, find_one}
use sentinel_desk.Tickets.Create.{
  CreateTicketDto, UploadedFile, check_create, write_create, create, new_ticket, next_key,
}
use sentinel_desk.Tickets.Update.{check_update, write_update, update}
use sentinel_desk.Tickets.Lifecycle.{
  check_reopen, write_reopen, reopen, check_rate_csat, write_rate_csat, rate_csat,
}
use sentinel_desk.Tickets.Reply.{check_add_comment, write_add_comment, add_comment}
use sentinel_desk.Tickets.Routing.{
  check_assign, write_assign, assign, write_unassign, unassign, check_escalate, write_escalate,
  escalate,
}
use sentinel_desk.Tickets.Labels.{
  check_add_tag, write_add_tag, add_tag, write_remove_tag, remove_tag, write_watch, watch,
  write_unwatch, unwatch,
}
use sentinel_desk.Tickets.Links.{
  check_merge, write_merge, merge, SplitTicketDto, check_split, write_split, split_ticket,
  split_off,
}
use sentinel_desk.Tickets.Endpoints.{
  Request, creates, shows, updates, reopens, rates, comments, assigns, transfers, unassigns,
  escalates, merges, splits, adds_tag, removes_tag, watches, unwatches, needs_staff, dispatch,
  handle,
}
use sentinel_desk.Tickets.Effects.Checks.{
  check_create-ok, check_split-ok, check_update-ok, check_reopen-ok, check_rate_csat-ok,
  check_add_comment-ok, check_assign-ok, check_escalate-ok, check_merge-ok,
}
use sentinel_desk.Tickets.Effects.Requests.{
  update-Effect, reopen-Effect, rate_csat-Effect, add_comment-Effect, assign-Effect,
  unassign-Effect, escalate-Effect, merge-Effect,
}
use sentinel_desk.Tickets.Effects.Handle.{
  own_or_staff, tickets-write_create, tickets-write_split, add_tag-Effect, remove_tag-Effect,
  watch-Effect, unwatch-Effect,
}
use sentinel_desk.Tickets.Effects.{
  Effect, untouched, rewritten, added, get_ticket_or_throw-ok, get_ticket_or_throw-found,
}

-- A row that a lookup finds is found after an update of a row that keeps its key.
find-modify :
    (k j : ℕ) (f : Ticket → Ticket) (ts : List Ticket) (t u : Ticket)
    → find (λ x. x.id) k ts ≡ some t
    → find (λ x. x.id) j ts ≡ some u
    → (f u).id ≡ u.id
    → (find (λ x. x.id) k (modify (λ x. x.id) j f ts) ≡ some t)
      ⊎ (find (λ x. x.id) k (modify (λ x. x.id) j f ts) ≡ some (f u)) × (t ≡ u)
find-modify k j f [] t u h g e = cc
find-modify k j f (x ∷ ts) t u h g e = elim (Bool-cases (x.id == j)) [
  | inl hit ↦ ground arith
  | inr miss ↦ ground (arith, find-modify k j f ts t u)
]

find-append :
    (k : ℕ) (ts us : List Ticket) (t : Ticket)
    → find (λ x. x.id) k ts ≡ some t
    → find (λ x. x.id) k (ts ++ us) ≡ some t
find-append k [] us t h = cc
find-append k (x ∷ ts) us t h = ground (arith, find-append k ts us t)

pub find-append_fresh :
    (k : ℕ) (ts : List Ticket) (t : Ticket)
    → find (λ x. x.id) k ts ≡ none
    → t.id ≡ k
    → find (λ x. x.id) k (ts ++ t ∷ []) ≡ some t
find-append_fresh k [] t h e = ground arith
find-append_fresh k (x ∷ ts) t h e = ground (arith, find-append_fresh k ts t)

abbrev error_of : {A : Type 0} → HttpError → Result A → HttpError
error_of d (err e) = e
error_of d (ok a) = d

pub same_error : {A : Type 0} (x e : HttpError) (r : Result A) → r ≡ err x → r ≡ err e → x ≡ e
same_error x e r p q = ap (error_of x) (sym p ∙ q)

module _ (user : AuthenticatedUser) where
  -- A ticket that could be read can be read after a request.
  pub Effect-readable :
      (id : ℕ) (db next : Db) (t : Ticket)
      → get_ticket_or_throw user id db ≡ ok t
      → Effect user db next.tickets
      → (u : Ticket) × (get_ticket_or_throw user id next ≡ ok u)
  Effect-readable id db next t h (untouched e) =
      let (found, may, _) = get_ticket_or_throw-ok user id db t h in
      (t, get_ticket_or_throw-found user id next t (ap (find (λ x. x.id) id) e ∙ found) may)
  Effect-readable id db next t h (rewritten j u f there may_u s e) =
      let (found, may, _) = get_ticket_or_throw-ok user id db t h in
      elim (find-modify id j f db.tickets t u found there s.same_id) [
        | inl same ↦
            (t, get_ticket_or_throw-found user id next t (ap (find (λ x. x.id) id) e ∙ same) may)
        | inr (moved, _) ↦ (
          f u,
          get_ticket_or_throw-found user id next (f u) (ap (find (λ x. x.id) id) e ∙ moved)
              (rw (s.same_organization, s.same_requester) may_u),
        )
      ]
  Effect-readable id db next t h (added u may_u s e) =
      let (found, may, _) = get_ticket_or_throw-ok user id db t h in
      (
        t,
        get_ticket_or_throw-found user id next t
            (ap (find (λ x. x.id) id) e ∙ find-append id db.tickets (u ∷ []) t found) may,
      )

  find_one-readable :
      (id : ℕ) (db : Db) (t : Ticket) (e : HttpError)
      → get_ticket_or_throw user id db ≡ ok t
      → find_one user id db ≢ err e
  unfolding find_one
  find_one-readable id db t e h bad = cc

  -- A handler whose answer can be read after its writes throws before them, or not at all.
  pub serve-err :
      {A : Type 0} (check : Db → Result A) (writes : A → Db → Db) (id : ℕ) (db : Db) (e : HttpError)
      → ((a : A)
          → check db ≡ ok a
          → (u : Ticket) × (get_ticket_or_throw user id (writes a db) ≡ ok u))
      → (serve check writes (λ _. find_one user id) db).0 ≡ err e
      → (serve check writes (λ _. find_one user id) db).1 ≡ db
  serve-err check writes id db e readable h = elim (Result-cases (check db)) [
    | inl (e', p) ↦ rw (p, serve) refl
    | inr (a, p) ↦
        let (u, r) = readable a p in
        absurd (find_one-readable id (writes a db) u e r (rw (p, serve) at h))
  ]

  -- The same for a handler that has read the ticket before.
  pub serve_same-err :
      {A : Type 0} (check : Db → Result A) (writes : A → Db → Db) (row : A → Ticket) (id : ℕ)
      (db : Db) (e : HttpError)
      → ((a : A) → check db ≡ ok a → get_ticket_or_throw user id db ≡ ok (row a))
      → Effect user db (serve check writes (λ _. find_one user id) db).1.tickets
      → (serve check writes (λ _. find_one user id) db).0 ≡ err e
      → (serve check writes (λ _. find_one user id) db).1 ≡ db
  serve_same-err check writes row id db e reads effect =
      serve-err check writes id db e
        λ a p. Effect-readable id db (writes a db) (row a) (reads a p) (rw (p, serve) at effect)

  -- A handler that may be stopped after its writes: an error leaves nothing, or it is what stopped it.
  pub serve_rejecting-err :
      {A : Type 0} (check : Db → Result A) (writes : A → Db → Result (Unit {0}) × Db) (id : ℕ)
      (db : Db) (e : HttpError)
      → ((a : A)
          → check db ≡ ok a
          → (u : Ticket) × (get_ticket_or_throw user id (writes a db).1 ≡ ok u))
      → (serve_rejecting check writes (λ _. find_one user id) db).0 ≡ err e
      → ((serve_rejecting check writes (λ _. find_one user id) db).1 ≡ db)
        ⊎ (a : A) × (check db ≡ ok a)
          × ((writes a db).0 ≡ err e)
          × ((serve_rejecting check writes (λ _. find_one user id) db).1 ≡ (writes a db).1)
  serve_rejecting-err check writes id db e readable h = elim (Result-cases (check db)) [
    | inl (e', p) ↦ inl (rw (p, serve) refl)
    | inr (a, p) ↦ elim (Result-cases (writes a db).0) [
      | inl (x, q) ↦ inr (
        a,
        p,
        q ∙ ap err (same_error x e _ refl (rw (p, q, serve, unless_rejected) at h)),
        rw (p, serve) refl,
      )
      | inr (done, q) ↦
          let (u, r) = readable a p in
          absurd
            (find_one-readable id (writes a db).1 u e r (rw (p, q, serve, unless_rejected) at h))
    ]
  ]
