-- ===== src/Tickets/Lifecycle.antt =====
-- The end of a ticket's life: reopening and rating
-- (apps/backend/src/tickets/tickets.service.ts: reopen, rateCsat).
use sentinel_desk.Prelude.{
  ℕ, ◌+◌, Bool, true, false, not, Option, none, some, Text, Result, ok, ◌>>=◌, ◌>>◌, throw_if,
  forbidden, bad_request, not_reopenable, only_requester_rates, not_ratable, already_rated, is_some,
}
use sentinel_desk.Schema.{
  AuthenticatedUser, is_staff, Ticket, TicketStatus, opened, resolved, closed, reopened,
  no_metadata, ticket_reopened,
}
use sentinel_desk.Store.{
  Db, Env, update_ticket, write_history, broadcast_ticket_changed, audit, serve,
}
use sentinel_desk.Tickets.Access.{get_ticket_or_throw, TicketDetail, find_one}

-- RESOLVED or CLOSED
abbrev pub is_finished : TicketStatus → Bool
is_finished resolved = true
is_finished closed = true
is_finished _ = false

unfoldable pub check_reopen : AuthenticatedUser → ℕ → Db → Result Ticket
check_reopen user ticket_id db = do
  ticket ← get_ticket_or_throw user ticket_id db
  throw_if (not (is_finished ticket.status)) (bad_request not_reopenable)
  ok ticket

-- The columns that `reopen`, and a customer's reply to a finished ticket, write.
unfoldable pub reopened_ticket : Ticket → Ticket
reopened_ticket t = record t {
  status = opened;
  resolved_at = none;
  closed_at = none;
  reopened_count = t.reopened_count + 1;
}

unfoldable pub write_reopen : Env → AuthenticatedUser → ℕ → Ticket → Db → Db
write_reopen env user ticket_id ticket db =
    let db1 =
      write_history env.now ticket_id (some user.id) reopened no_metadata
        (update_ticket env.now ticket_id reopened_ticket db) in
    broadcast_ticket_changed user.organization_id ticket_id
      (audit user.organization_id user.id (ticket_reopened ticket.status) ticket_id db1)

unfoldable pub reopen : Env → AuthenticatedUser → ℕ → Db → Result TicketDetail × Db
unfolding check_reopen write_reopen
reopen env user ticket_id db =
    serve (check_reopen user ticket_id) (write_reopen env user ticket_id)
      (λ _. find_one user ticket_id) db

-- The rating is validated to 1..5 before it comes here.
pub record RateCsatDto : Type 0 where
  pub rating : ℕ
  pub comment : Option Text

unfoldable pub check_rate_csat : AuthenticatedUser → ℕ → Db → Result Ticket
check_rate_csat user ticket_id db = do
  ticket ← get_ticket_or_throw user ticket_id db
  throw_if (is_staff user) (forbidden only_requester_rates)
  throw_if (not (is_finished ticket.status)) (bad_request not_ratable)
  throw_if (is_some ticket.csat_rated_at) (bad_request already_rated)
  ok ticket

-- A comment that is left out leaves the column as it is.
unfoldable pub rated_ticket : ℕ → RateCsatDto → Ticket → Ticket
rated_ticket now dto t = record t {
  csat_rating = some dto.rating;
  csat_comment = elim dto.comment [ none ↦ t.csat_comment | some c ↦ some c ];
  csat_rated_at = some now;
}

unfoldable pub write_rate_csat : Env → AuthenticatedUser → ℕ → RateCsatDto → Ticket → Db → Db
write_rate_csat env user ticket_id dto ticket db =
    broadcast_ticket_changed user.organization_id ticket_id
      (update_ticket env.now ticket_id (rated_ticket env.now dto) db)

unfoldable pub rate_csat : Env → AuthenticatedUser → ℕ → RateCsatDto → Db → Result TicketDetail × Db
unfolding check_rate_csat write_rate_csat
rate_csat env user ticket_id dto db =
    serve (check_rate_csat user ticket_id) (write_rate_csat env user ticket_id dto)
      (λ _. find_one user ticket_id) db
