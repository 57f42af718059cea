-- ===== src/Tickets/Effects/Rows.antt =====
-- The rows that the handlers of apps/backend/src/tickets/tickets.service.ts write.
use sentinel_desk.Prelude.{ℕ, Text, Option, none, some, arith, is_none, if◌then◌else◌, ◌≢◌}
use sentinel_desk.Schema.{AuthenticatedUser, TicketPriority, Ticket}
use sentinel_desk.Store.{Env}
use sentinel_desk.Sla.Service.{DueDates, resumed_ticket}
use sentinel_desk.Tickets.Effects.{IsSound, RowStep}
use sentinel_desk.Tickets.Create.{new_ticket}
use sentinel_desk.Tickets.Update.{
  Change, SlaTransition, stays, pauses, resumes, sla_transition, changed_ticket,
}
use sentinel_desk.Tickets.Reply.{Reply, replied_ticket}
use sentinel_desk.Tickets.Routing.{assigned_ticket, EscalateTicketDto, escalated_ticket}
use sentinel_desk.Tickets.Links.{merged_ticket}
use sentinel_desk.Tickets.Lifecycle.{reopened_ticket, rated_ticket, RateCsatDto}

-- `updatedAt` follows every write.
abbrev pub touched : ℕ → (Ticket → Ticket) → Ticket → Ticket
touched now f t = record (f t) { updated_at = now }

-- The SLA clock as a change of a row.
abbrev pub paused_row : ℕ → Ticket → Ticket
paused_row now t =
    if is_none t.sla_paused_at then record t { sla_paused_at = some now; updated_at = now } else t

abbrev pub resumed_row : ℕ → Ticket → Ticket
resumed_row now t = elim t.sla_paused_at [
  | none ↦ t
  | some at ↦ touched now (resumed_ticket now at) t
]

abbrev pub transition_row : SlaTransition → ℕ → Ticket → Ticket
transition_row stays now t = t
transition_row pauses now t = paused_row now t
transition_row resumes now t = resumed_row now t

pub reopened_ticket-RowStep : (now : ℕ) (t : Ticket) → RowStep t (touched now reopened_ticket t)
unfolding reopened_ticket
reopened_ticket-RowStep now t = ground arith

pub rated_ticket-RowStep :
    (now : ℕ) (dto : RateCsatDto) (t : Ticket) → RowStep t (touched now (rated_ticket now dto) t)
unfolding rated_ticket
rated_ticket-RowStep now dto t = ground arith

pub assigned_ticket-RowStep :
    (now : ℕ) (a : Option ℕ) (t : Ticket) → RowStep t (touched now (assigned_ticket a) t)
assigned_ticket-RowStep now a t = ground arith

pub escalated_ticket-RowStep :
    (now : ℕ) (dto : EscalateTicketDto) (t : Ticket)
    → RowStep t (touched now (escalated_ticket dto) t)
unfolding escalated_ticket
escalated_ticket-RowStep now dto t = ground arith

pub merged_ticket-RowStep :
    (now target : ℕ) (t : Ticket)
    → t.id ≢ target
    → RowStep t (touched now (merged_ticket now target) t)
unfolding merged_ticket
merged_ticket-RowStep now target t ne = ground arith

pub replied_ticket-RowStep :
    (now : ℕ) (reply : Reply) (t : Ticket) → RowStep t (touched now (replied_ticket now reply) t)
unfolding replied_ticket reopened_ticket
replied_ticket-RowStep now reply t = ground arith

-- A row with a status set, and then the SLA clock moved as the change of status asks for.
pub changed_ticket-RowStep :
    (now : ℕ) (change : Change) (t : Ticket)
    → RowStep t (
        transition_row
          (sla_transition t.status change.status)
          now
          (touched now (changed_ticket now change) t))
unfolding changed_ticket resumed_ticket
changed_ticket-RowStep now change t = ground arith

-- A new row is sound.
pub new_ticket-IsSound :
    (env : Env) (id : ℕ) (user : AuthenticatedUser) (number : ℕ) (subject : Text)
    (p : TicketPriority) (requester : ℕ) (dates : DueDates)
    → IsSound (new_ticket env id user number subject p requester dates)
new_ticket-IsSound env id user number subject p requester dates = ground arith
