-- ===== src/Tickets/Views.antt =====
-- What the answers of the ticket endpoints show (apps/backend/src/tickets/tickets.service.ts:
-- toTicketDetail).
use mathlib.Core.Option
use sentinel_desk.Prelude.{Option, some, ◌≡◌, none, [], All}
use sentinel_desk.Schema.{AuthenticatedUser, Ticket, Comment, public}
use sentinel_desk.Store.{find_ticket, Db}
use sentinel_desk.Tickets.Access.{RelatedTicket, TicketDetail}
use sentinel_desk.Tickets.Endpoints.{comments}

-- A comment that a customer may read.
abbrev pub IsPublic : Comment → Type 0
IsPublic c = c.visibility ≡ public

-- A related ticket that is shown is a stored one, whoever requested it.
abbrev pub IsStored : Db → Option RelatedTicket → Type 0
IsStored db none = Unit
IsStored db (some r) =
    (t : Ticket) × (find_ticket r.id db ≡ some t) × (r.number ≡ t.number) × (r.subject ≡ t.subject)

-- What a customer is shown of a ticket: it is his own, and comes without an internal note and without
-- the triage aids; beside it stand the keys, numbers and subjects of two tickets that may be
-- another customer's.
pub record IsCustomerView (user : AuthenticatedUser) (db : Db) (d : TicketDetail) : Type 0 where
  pub row : Ticket
  pub found : find_ticket d.id db ≡ some row
  pub organization : row.organization_id ≡ user.organization_id
  pub requested : row.requester_id ≡ user.id
  pub own : d.requester ≡ user.id
  pub merged_into : IsStored db d.merged_into
  pub split_from : IsStored db d.split_from
  pub public_only : All IsPublic d.comments
  pub no_priority_aid : d.ai_suggested_priority ≡ none
  pub no_tag_aid : d.ai_suggested_tags ≡ []
