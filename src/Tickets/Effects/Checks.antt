-- ===== src/Tickets/Effects/Checks.antt =====
-- Inversion of the handlers' checks (apps/backend/src/tickets/tickets.service.ts).
use sentinel_desk.Prelude.{ℕ, ◌≡◌, ◌≢◌, ◌⊎◌, inl, inr, true, arith, ok, Result-cases}
use sentinel_desk.Schema.{AuthenticatedUser, is_staff, Ticket}
use sentinel_desk.Store.{Db, Env}
use sentinel_desk.Tickets.Access.{get_ticket_or_throw}
use sentinel_desk.Tickets.Create.{CreateTicketDto, Draft, check_create, requester_of}
use sentinel_desk.Tickets.Update.{UpdateTicketDto, Change, check_update}
use sentinel_desk.Tickets.Lifecycle.{check_reopen, check_rate_csat}
use sentinel_desk.Tickets.Reply.{CreateCommentDto, Reply, check_add_comment}
use sentinel_desk.Tickets.Routing.{check_assign, EscalateTicketDto, check_escalate}
use sentinel_desk.Tickets.Links.{Merger, check_merge, SplitTicketDto, Extract, check_split}

-- Inversion of the checks: the ticket that they hand on has been read by `getTicketOrThrow`.
pub check_reopen-ok :
    (user : AuthenticatedUser) (id : ℕ) (db : Db) (t : Ticket)
    → check_reopen user id db ≡ ok t
    → get_ticket_or_throw user id db ≡ ok t
unfolding check_reopen
check_reopen-ok user id db t h = ground arith

pub check_rate_csat-ok :
    (user : AuthenticatedUser) (id : ℕ) (db : Db) (t : Ticket)
    → check_rate_csat user id db ≡ ok t
    → get_ticket_or_throw user id db ≡ ok t
unfolding check_rate_csat
check_rate_csat-ok user id db t h = ground arith

pub check_update-ok :
    (env : Env) (user : AuthenticatedUser) (id : ℕ) (dto : UpdateTicketDto) (db : Db) (c : Change)
    → check_update env user id dto db ≡ ok c
    → get_ticket_or_throw user id db ≡ ok c.ticket
unfolding check_update
check_update-ok env user id dto db c h = elim (Result-cases (get_ticket_or_throw user id db)) [
  | inl (e, p) ↦ ground arith
  | inr (t, p) ↦ ground arith
]

pub check_add_comment-ok :
    (user : AuthenticatedUser) (id : ℕ) (dto : CreateCommentDto) (db : Db) (r : Reply)
    → check_add_comment user id dto db ≡ ok r
    → get_ticket_or_throw user id db ≡ ok r.ticket
unfolding check_add_comment
check_add_comment-ok user id dto db r h = ground arith

pub check_assign-ok :
    (user : AuthenticatedUser) (id to : ℕ) (db : Db) (t : Ticket)
    → check_assign user id to db ≡ ok t
    → get_ticket_or_throw user id db ≡ ok t
unfolding check_assign
check_assign-ok user id to db t h = ground arith

pub check_escalate-ok :
    (user : AuthenticatedUser) (id : ℕ) (dto : EscalateTicketDto) (db : Db) (t : Ticket)
    → check_escalate user id dto db ≡ ok t
    → get_ticket_or_throw user id db ≡ ok t
unfolding check_escalate
check_escalate-ok user id dto db t h = ground arith

pub check_merge-ok :
    (user : AuthenticatedUser) (id into : ℕ) (db : Db) (m : Merger)
    → check_merge user id into db ≡ ok m
    → (get_ticket_or_throw user id db ≡ ok m.source)
      × (get_ticket_or_throw user into db ≡ ok m.target)
      × (id ≢ into)
unfolding check_merge
check_merge-ok user id into db m h = ground arith

-- A customer files for himself, and the staff for members of their organization.
pub check_create-ok :
    (env : Env) (user : AuthenticatedUser) (dto : CreateTicketDto) (db : Db) (d : Draft)
    → check_create env user dto db ≡ ok d
    → (is_staff user ≡ true) ⊎ (d.requester_id ≡ user.id)
unfolding check_create requester_of
check_create-ok env user dto db d h = ground arith

pub check_split-ok :
    (env : Env) (user : AuthenticatedUser) (id : ℕ) (dto : SplitTicketDto) (db : Db) (x : Extract)
    → check_split env user id dto db ≡ ok x
    → get_ticket_or_throw user id db ≡ ok x.source
unfolding check_split
check_split-ok env user id dto db x h = ground arith
