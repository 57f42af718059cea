-- ===== src/Tickets/Access.antt =====
-- Who may read a ticket, and what of it (apps/backend/src/tickets/tickets.service.ts:
-- getTicketOrThrow, toTicketDetail, findOne, getHistory).
use mathlib.Core.Option
use sentinel_desk.Prelude.{
  ℕ, Bool, not, ◌&&◌, ◌||◌, Option, none, some, List, [], Text, Result, ok, ◌>>=◌, ◌>>◌, or_throw,
  throw_if, not_found, ticket_not_found, ◌==◌, select, any, find_map, if◌then◌else◌,
}
use sentinel_desk.Schema.{
  AuthenticatedUser, is_staff, is_internal, Ticket, Comment, Tag, TicketStatus, TicketPriority,
  TicketHistory,
}
use sentinel_desk.Store.{Db, find_ticket, find_tag}

-- `ticket.organizationId !== user.organizationId`, and the customer's own tickets only.
abbrev pub may_access : AuthenticatedUser → Ticket → Bool
may_access user ticket =
    ticket.organization_id == user.organization_id
    && (is_staff user || ticket.requester_id == user.id)

-- `getTicketOrThrow`: a ticket that is out of reach looks as if it did not exist.
unfoldable pub get_ticket_or_throw : AuthenticatedUser → ℕ → Db → Result Ticket
get_ticket_or_throw user ticket_id db = do
  ticket ← or_throw (find_ticket ticket_id db) (not_found ticket_not_found)
  throw_if (not (ticket.organization_id == user.organization_id)) (not_found ticket_not_found)
  throw_if (not (is_staff user) && not (ticket.requester_id == user.id))
      (not_found ticket_not_found)
  ok ticket

-- What a detail shows of the ticket that it was merged into, or split from.
pub record RelatedTicket : Type 0 where
  pub id : ℕ
  pub number : ℕ
  pub subject : Text

pub record TicketDetail : Type 0 where
  pub id : ℕ
  pub number : ℕ
  pub subject : Text
  pub status : TicketStatus
  pub priority : TicketPriority
  pub requester : ℕ
  pub assignee : Option ℕ
  pub tags : List Tag
  pub comments : List Comment
  pub merged_into : Option RelatedTicket
  pub split_from : Option RelatedTicket
  pub reopened_count : ℕ
  pub first_response_at : Option ℕ
  pub resolved_at : Option ℕ
  pub closed_at : Option ℕ
  pub response_due_at : Option ℕ
  pub resolution_due_at : Option ℕ
  pub response_breached : Bool
  pub resolution_breached : Bool
  pub sla_paused_at : Option ℕ
  pub created_at : ℕ
  pub updated_at : ℕ
  pub ai_suggested_priority : Option TicketPriority
  pub ai_suggested_tags : List Text
  pub csat_rating : Option ℕ
  pub csat_comment : Option Text
  pub csat_rated_at : Option ℕ
  pub is_watching : Bool

-- The relations of a ticket that the detail includes.
abbrev pub comments_of : ℕ → Db → List Comment
comments_of ticket_id db = select (λ c. c.ticket_id == ticket_id) db.comments

abbrev pub tags_of : ℕ → Db → List Tag
tags_of ticket_id db =
    find_map (λ r. if r.ticket_id == ticket_id then find_tag r.tag_id db else none) db.ticket_tags

-- `mergedInto` and `splitFrom` of the detail's `include`; nothing looks at who requested the ticket.
abbrev pub as_related : Ticket → RelatedTicket
as_related t = record { id = t.id; number = t.number; subject = t.subject }

unfoldable pub related_ticket : Option ℕ → Db → Option RelatedTicket
related_ticket none db = none
related_ticket (some id) db = Option.map as_related (find_ticket id db)

-- `toTicketDetail`
unfoldable pub to_ticket_detail : Ticket → AuthenticatedUser → Db → TicketDetail
unfolding related_ticket
to_ticket_detail ticket user db =
    let staff = is_staff user in
    let all_comments = comments_of ticket.id db in
    record {
      id = ticket.id;
      number = ticket.number;
      subject = ticket.subject;
      status = ticket.status;
      priority = ticket.priority;
      requester = ticket.requester_id;
      assignee = ticket.assignee_id;
      tags = tags_of ticket.id db;
      comments =
          if staff then all_comments else select (λ c. not (is_internal c.visibility)) all_comments;
      merged_into = related_ticket ticket.merged_into_id db;
      split_from = related_ticket ticket.split_from_id db;
      reopened_count = ticket.reopened_count;
      first_response_at = ticket.first_response_at;
      resolved_at = ticket.resolved_at;
      closed_at = ticket.closed_at;
      response_due_at = ticket.response_due_at;
      resolution_due_at = ticket.resolution_due_at;
      response_breached = ticket.response_breached;
      resolution_breached = ticket.resolution_breached;
      sla_paused_at = ticket.sla_paused_at;
      created_at = ticket.created_at;
      updated_at = ticket.updated_at;
      ai_suggested_priority = if staff then ticket.ai_suggested_priority else none;
      ai_suggested_tags = if staff then ticket.ai_suggested_tags else [];
      csat_rating = ticket.csat_rating;
      csat_comment = ticket.csat_comment;
      csat_rated_at = ticket.csat_rated_at;
      is_watching = any (λ w. w.ticket_id == ticket.id && w.user_id == user.id) db.watchers;
    }

-- `findOne`
unfoldable pub find_one : AuthenticatedUser → ℕ → Db → Result TicketDetail
unfolding get_ticket_or_throw to_ticket_detail
find_one user ticket_id db = do
  ticket ← get_ticket_or_throw user ticket_id db
  ok (to_ticket_detail ticket user db)

-- `getHistory`
unfoldable pub get_history : AuthenticatedUser → ℕ → Db → Result (List TicketHistory)
unfolding get_ticket_or_throw
get_history user ticket_id db = do
  get_ticket_or_throw user ticket_id db
  ok (select (λ h. h.ticket_id == ticket_id) db.history)
