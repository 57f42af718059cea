-- ===== src/Schema.antt =====
-- The rows and enums of apps/backend/prisma/schema.prisma that the ticket desk works on. Keys are
-- numbers in place of UUIDs, which are only compared; instants are milliseconds since the epoch.
-- A relation is given by its key, and a JSON column by a value for each shape that is written.
use sentinel_desk.Prelude.{ℕ, Bool, true, false, Option, List, Text}
use sentinel_desk.Prelude.Int.{ℤ}

pub data RoleName : Type 0 where
  customer agent senior_agent manager admin : RoleName

pub data TicketStatus : Type 0 where
  opened pending on_hold resolved closed : TicketStatus

pub data TicketPriority : Type 0 where
  low medium high urgent : TicketPriority

pub data CommentVisibility : Type 0 where
  public internal : CommentVisibility

pub data TicketHistoryAction : Type 0 where
  created status_changed priority_changed assigned unassigned : TicketHistoryAction
  transferred escalated tag_added tag_removed merged merged_from : TicketHistoryAction
  split reopened comment_added note_added sla_paused sla_resumed : TicketHistoryAction
  response_sla_breached resolution_sla_breached auto_escalated : TicketHistoryAction

pub data NotificationType : Type 0 where
  ticket_assigned ticket_reply sla_breached sla_escalated : NotificationType

-- `a === b` of two statuses, and of two priorities.
abbrev pub status_eq : TicketStatus → TicketStatus → Bool
status_eq opened opened = true
status_eq pending pending = true
status_eq on_hold on_hold = true
status_eq resolved resolved = true
status_eq closed closed = true
status_eq _ _ = false

abbrev pub priority_eq : TicketPriority → TicketPriority → Bool
priority_eq low low = true
priority_eq medium medium = true
priority_eq high high = true
priority_eq urgent urgent = true
priority_eq _ _ = false

abbrev pub is_internal : CommentVisibility → Bool
is_internal internal = true
is_internal public = false

-- `AuthenticatedUser` of auth/types/jwt-payload.type.ts.
pub record AuthenticatedUser : Type 0 where
  pub id : ℕ
  pub organization_id : ℕ
  pub role : RoleName
  pub permissions : List Text
  pub session_id : ℕ

-- `isStaff` of tickets/types/authenticated-request.type.ts.
abbrev pub role_is_staff : RoleName → Bool
role_is_staff customer = false
role_is_staff _ = true

abbrev pub is_staff : AuthenticatedUser → Bool
is_staff user = role_is_staff user.role

pub record Organization : Type 0 where
  pub id : ℕ
  pub next_ticket_number : ℕ

-- The columns of a user that the desk reads.
pub record Member : Type 0 where
  pub id : ℕ
  pub organization_id : ℕ
  pub first_name : Text
  pub last_name : Text
  pub email : Text

pub record Ticket : Type 0 where
  pub id : ℕ
  pub organization_id : ℕ
  pub number : ℕ
  pub subject : Text
  pub status : TicketStatus
  pub priority : TicketPriority
  pub requester_id : ℕ
  pub assignee_id : Option ℕ
  pub merged_into_id : Option ℕ
  pub split_from_id : Option ℕ
  pub reopened_count : ℕ
  pub first_response_at : Option ℕ
  pub resolved_at : Option ℕ
  pub closed_at : Option ℕ
  pub sla_policy_id : Option ℕ
  pub response_due_at : Option ℕ
  pub resolution_due_at : Option ℕ
  pub response_breached : Bool
  pub resolution_breached : Bool
  pub sla_paused_at : Option ℕ
  pub sla_escalated_at : Option ℕ
  pub csat_rating : Option ℕ
  pub csat_comment : Option Text
  pub csat_rated_at : Option ℕ
  pub ai_suggested_priority : Option TicketPriority
  pub ai_suggested_tags : List Text
  pub created_at : ℕ
  pub updated_at : ℕ

pub record Comment : Type 0 where
  pub id : ℕ
  pub ticket_id : ℕ
  pub author_id : ℕ
  pub visibility : CommentVisibility
  pub body : Text
  pub created_at : ℕ

pub record Attachment : Type 0 where
  pub comment_id : ℕ
  pub file_name : Text
  pub file_url : Text
  pub file_size : ℕ
  pub mime_type : Text

pub record Tag : Type 0 where
  pub id : ℕ
  pub organization_id : ℕ
  pub name : Text

pub record TicketTag : Type 0 where
  pub ticket_id : ℕ
  pub tag_id : ℕ

pub record TicketWatcher : Type 0 where
  pub ticket_id : ℕ
  pub user_id : ℕ

-- The `metadata` of a history entry.
pub data Metadata : Type 0 where
  no_metadata : Metadata
  statuses : TicketStatus → TicketStatus → Metadata
  priorities : TicketPriority → TicketPriority → Metadata
  assignees : Option ℕ → Option ℕ → Metadata
  escalation : Text → Option ℕ → Metadata
  into_ticket from_ticket new_ticket : ℕ → ℕ → Metadata
  tag_change : ℕ → Option Text → Metadata
  paused_minutes : ℤ → Metadata
  auto_escalation : TicketPriority → TicketPriority → ℕ → Metadata

pub record TicketHistory : Type 0 where
  pub ticket_id : ℕ
  pub actor_id : Option ℕ
  pub action : TicketHistoryAction
  pub metadata : Metadata
  pub created_at : ℕ

pub record SlaPolicyRule : Type 0 where
  pub priority : TicketPriority
  pub response_target_minutes : ℕ
  pub resolution_target_minutes : ℕ

pub record BusinessHoursSlot : Type 0 where
  pub day_of_week : ℕ
  pub start_minute : ℕ
  pub end_minute : ℕ

-- A schedule with its slots and the instants of its holidays.
pub record BusinessHoursSchedule : Type 0 where
  pub timezone : Text
  pub slots : List BusinessHoursSlot
  pub holidays : List ℕ

-- A policy with its rules and its schedule.
pub record SlaPolicy : Type 0 where
  pub id : ℕ
  pub organization_id : ℕ
  pub name : Text
  pub is_default : Bool
  pub auto_escalate_at_percent : ℕ
  pub rules : List SlaPolicyRule
  pub business_hours : BusinessHoursSchedule

-- The titles and bodies of notifications are templates with these holes.
pub data NotificationTitle : Type 0 where
  new_reply assigned_to_you ticket_escalated response_breach resolution_breach :
      ℕ → NotificationTitle
  auto_escalated_to : ℕ → TicketPriority → NotificationTitle

pub data NotificationBody : Type 0 where
  plain : Text → NotificationBody
  replied_to : Text → Text → Text → NotificationBody

pub record Notification : Type 0 where
  pub organization_id : ℕ
  pub user_id : ℕ
  pub type : NotificationType
  pub title : NotificationTitle
  pub body : NotificationBody
  pub ticket_id : ℕ

-- An audit log row: the action with its metadata.
pub data AuditAction : Type 0 where
  ticket_created : ℕ → Text → AuditAction
  ticket_priority_changed : TicketPriority → TicketPriority → AuditAction
  ticket_status_changed : TicketStatus → TicketStatus → AuditAction
  ticket_reopened : TicketStatus → AuditAction
  ticket_transferred ticket_assigned_to : Option ℕ → ℕ → AuditAction
  ticket_unassigned : ℕ → AuditAction
  ticket_escalated_to : Text → TicketPriority → Option ℕ → AuditAction
  ticket_merged : ℕ → ℕ → AuditAction
  ticket_split : ℕ → List ℕ → AuditAction

pub record AuditLog : Type 0 where
  pub organization_id : ℕ
  pub actor_user_id : ℕ
  pub action : AuditAction
  pub entity_id : ℕ

pub data WebhookEvent : Type 0 where
  on_created on_status_changed on_escalated : WebhookEvent

pub record Webhook : Type 0 where
  pub id : ℕ
  pub organization_id : ℕ
  pub is_active : Bool
  pub events : List WebhookEvent

pub data BreachKind : Type 0 where
  response_breach_kind resolution_breach_kind escalation_kind : BreachKind

-- What leaves the process: socket messages, queued jobs and webhook deliveries.
pub data Signal : Type 0 where
  ticket_updated_room ticket_updated_org ticket_created_org : ℕ → ℕ → Signal
  comment_new : ℕ → Comment → Signal
  notification_new : ℕ → Signal
  enrich_ticket enrich_comment : ℕ → Signal
  deliver : ℕ → WebhookEvent → ℕ → Signal
  breach_email : ℕ → BreachKind → Option Text → Signal
