-- ===== src/Tickets/Effects.antt =====
-- What a request may do to the table of tickets, as a relation between the table before and after
-- (apps/backend/src/tickets/tickets.service.ts).
pub mod Rows
pub mod Frames
pub mod Checks
pub mod Requests
pub mod Handle
use mathlib.Core.List.{append-nil}
use sentinel_desk.Prelude.{
  ℕ, suc, ◌+◌, Bool, true, false, not, ◌&&◌, ◌||◌, ◌≡◌, refl, sym, ◌∙◌, ap, ◌≢◌, inl, inr, Option,
  none, some, List, [], ◌∷◌, ◌++◌, Result, ok, err, arith, ◌==◌, is_some, is_none, find, modify,
  if◌then◌else◌, Result-cases, Option-cases, Bool-cases, All, All-append, modify-All_found,
  All-find, select, select-append, select-modify, find-key,
}
use sentinel_desk.Schema.{
  AuthenticatedUser, is_staff, Ticket, TicketStatus, resolved, closed, Member,
}
use sentinel_desk.Store.{Db, Env, find_ticket, serve}
use sentinel_desk.Tickets.Access.{may_access, get_ticket_or_throw, TicketDetail}
use sentinel_desk.Tickets.Update.{is_pausing}

-- What holds of every ticket at any time.
pub record IsSound (t : Ticket) : Type 0 where
  pub resolved_dated : t.status ≡ resolved → is_some t.resolved_at ≡ true
  pub closed_dated : t.status ≡ closed → is_some t.closed_at ≡ true
  pub paused_while_pausing : is_pausing t.status ≡ true → is_some t.sla_paused_at ≡ true
  pub rated_whole : is_some t.csat_rated_at ≡ is_some t.csat_rating
  pub not_into_itself : t.merged_into_id ≢ some t.id

-- What a request may do to a row.
pub record RowStep (t u : Ticket) : Type 0 where
  pub same_id : u.id ≡ t.id
  pub same_organization : u.organization_id ≡ t.organization_id
  pub same_number : u.number ≡ t.number
  pub same_requester : u.requester_id ≡ t.requester_id
  pub same_origin : u.split_from_id ≡ t.split_from_id
  pub same_creation : u.created_at ≡ t.created_at
  pub keeps_sound : IsSound t → IsSound u

pub data Effect (user : AuthenticatedUser) (db : Db) (after : List Ticket) : Type 0 where
  untouched : after ≡ db.tickets → Effect user db after
  rewritten :
      (id : ℕ) (t : Ticket) (f : Ticket → Ticket)
      → find_ticket id db ≡ some t
      → may_access user t ≡ true
      → RowStep t (f t)
      → after ≡ modify (λ u. u.id) id f db.tickets
      → Effect user db after
  added :
      (t : Ticket)
      → may_access user t ≡ true
      → IsSound t
      → after ≡ db.tickets ++ (t ∷ [])
      → Effect user db after

-- A ticket that is handed out exists and may be accessed.
pub get_ticket_or_throw-ok :
    (user : AuthenticatedUser) (id : ℕ) (db : Db) (t : Ticket)
    → get_ticket_or_throw user id db ≡ ok t
    → (find_ticket id db ≡ some t) × (may_access user t ≡ true) × (t.id ≡ id)
unfolding get_ticket_or_throw
get_ticket_or_throw-ok user id db t h = elim (Option-cases (find_ticket id db)) [
  | inl e ↦ ground arith
  | inr (u, e) ↦ ground (arith, find-key (λ u. u.id) id db.tickets {a = u})
]

pub get_ticket_or_throw-found :
    (user : AuthenticatedUser) (id : ℕ) (db : Db) (t : Ticket)
    → find_ticket id db ≡ some t
    → may_access user t ≡ true
    → get_ticket_or_throw user id db ≡ ok t
unfolding get_ticket_or_throw
get_ticket_or_throw-found user id db t found may = ground arith

module _ (user : AuthenticatedUser) (db : Db) where
  -- A handler that throws leaves the table alone.
  pub serve-Effect :
      {A : Type 0} (check : Db → Result A) (writes : A → Db → Db)
      (answer : A → Db → Result TicketDetail)
      → ((a : A) → check db ≡ ok a → Effect user db (writes a db).tickets)
      → Effect user db (serve check writes answer db).1.tickets
  serve-Effect check writes answer h = elim (Result-cases (check db)) [
    | inl (e, p) ↦ rw (p, serve) (untouched refl)
    | inr (a, p) ↦ rw (p, serve) (h a p)
  ]

  -- A row that the caller may access, rewritten in one step.
  pub rewrites :
      (id : ℕ) (t : Ticket) (f : Ticket → Ticket) (after : List Ticket)
      → get_ticket_or_throw user id db ≡ ok t
      → RowStep t (f t)
      → after ≡ modify (λ u. u.id) id f db.tickets
      → Effect user db after
  rewrites id t f after e s p =
      let (found, may, _) = get_ticket_or_throw-ok user id db t e in rewritten id t f found may s p

-- The tickets that a user may not access.
abbrev pub hidden : AuthenticatedUser → List Ticket → List Ticket
hidden user = select (λ t. not (may_access user t))

may_access-RowStep :
    (user : AuthenticatedUser) (t u : Ticket) → RowStep t u → may_access user u ≡ may_access user t
may_access-RowStep user t u s = rw (s.same_organization, s.same_requester)

pub Effect-hidden :
    (user : AuthenticatedUser) (db : Db) (after : List Ticket)
    → Effect user db after
    → hidden user after ≡ hidden user db.tickets
Effect-hidden user db after (untouched e) = rw e
Effect-hidden user db after (rewritten id t f found may s e) = rw e (
    select-modify (λ u. u.id) (λ u. not (may_access user u)) id f db.tickets {a = t} found (rw may)
      (rw (may_access-RowStep user t (f t) s ∙ may)))
Effect-hidden user db after (added t may s e) =
    rw (e, select-append (λ u. not (may_access user u)) db.tickets (t ∷ []), may) (append-nil _)

pub Effect-IsSound :
    (user : AuthenticatedUser) (db : Db) (after : List Ticket)
    → Effect user db after
    → All IsSound db.tickets
    → All IsSound after
Effect-IsSound user db after (untouched e) all = rw e all
Effect-IsSound user db after (rewritten id t f found may s e) all = rw e (
    modify-All_found (λ u. u.id) IsSound id f db.tickets t found
      (s.keeps_sound (All-find (λ u. u.id) IsSound id db.tickets t all found)) all)
Effect-IsSound user db after (added t may s e) all =
    rw e (All-append IsSound db.tickets (t ∷ []) all (s, tt))
