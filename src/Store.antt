-- ===== src/Store.antt =====
-- The database that the desk's services share (apps/backend/src/prisma), as a record of tables, with
-- the writes that the services make: one function for each kind of write. Signals that leave the
-- process stand in `outbox`, in order.
use sentinel_desk.Prelude.{
  ℕ, suc, ◌+◌, Bool, true, false, ◌&&◌, Option, List, [], ◌∷◌, ◌++◌, Text, Result, ok, err, ◌==◌,
  select, any, find, modify, map,
}
use sentinel_desk.Schema.{
  Organization, Member, Ticket, Comment, Attachment, Tag, TicketTag, TicketWatcher, TicketHistory,
  TicketHistoryAction, Metadata, SlaPolicy, Notification, AuditLog, AuditAction, Webhook,
  WebhookEvent, on_created, on_status_changed, on_escalated, Signal, deliver, notification_new,
  ticket_updated_room, ticket_updated_org,
}
use sentinel_desk.Sla.BusinessHours.{Luxon}

pub record Db : Type 0 where
  pub organizations : List Organization
  pub members : List Member
  pub tickets : List Ticket
  pub comments : List Comment
  pub attachments : List Attachment
  pub tags : List Tag
  pub ticket_tags : List TicketTag
  pub watchers : List TicketWatcher
  pub history : List TicketHistory
  pub policies : List SlaPolicy
  pub notifications : List Notification
  pub audit_logs : List AuditLog
  pub webhooks : List Webhook
  pub outbox : List Signal
  -- how many keys `@default(uuid())` has handed out
  pub keys_drawn : ℕ

-- What a request takes from outside: the clock (read once in a request), the keys that the
-- database draws, luxon's calendar of a time zone, the sanitizer of rich text, and the object storage,
-- which says where it has put a comment's file or rejects it.
pub record Env : Type 0 where
  pub now : ℕ
  pub uuid : ℕ → ℕ
  pub luxon : Text → Luxon
  pub sanitize_rich_text : Text → Text
  pub upload : ℕ → Text → Result Text

abbrev pub find_ticket : ℕ → Db → Option Ticket
find_ticket id db = find (λ t. t.id) id db.tickets

abbrev pub find_member : ℕ → Db → Option Member
find_member id db = find (λ m. m.id) id db.members

abbrev pub find_organization : ℕ → Db → Option Organization
find_organization id db = find (λ o. o.id) id db.organizations

abbrev pub find_tag : ℕ → Db → Option Tag
find_tag id db = find (λ t. t.id) id db.tags

-- `ticket.update`; the column `updatedAt` follows by itself.
unfoldable pub update_ticket : ℕ → ℕ → (Ticket → Ticket) → Db → Db
update_ticket now id f db = record db {
  tickets = modify (λ t. t.id) id (λ t. record (f t) { updated_at = now }) db.tickets;
}

unfoldable pub insert_ticket : Ticket → Db → Db
insert_ticket t db = record db { tickets = db.tickets ++ (t ∷ []); keys_drawn = suc db.keys_drawn }

unfoldable pub insert_comment : Comment → Db → Db
insert_comment c db = record db {
  comments = db.comments ++ (c ∷ []);
  keys_drawn = suc db.keys_drawn;
}

unfoldable pub insert_attachment : Attachment → Db → Db
insert_attachment a db = record db { attachments = db.attachments ++ (a ∷ []) }

unfoldable pub insert_ticket_tag : TicketTag → Db → Db
insert_ticket_tag r db = record db { ticket_tags = db.ticket_tags ++ (r ∷ []) }

-- `ticketHistory.create`
unfoldable pub write_history : ℕ → ℕ → Option ℕ → TicketHistoryAction → Metadata → Db → Db
write_history now ticket_id actor_id action metadata db = record db {
  history =
      db.history
      ++ (record {
        ticket_id = ticket_id;
        actor_id = actor_id;
        action = action;
        metadata = metadata;
        created_at = now;
      }
          ∷ []);
}

-- `organization.update({ data: { nextTicketNumber: { increment: 1 } } })`
unfoldable pub take_ticket_number : ℕ → Db → Db
take_ticket_number organization_id db = record db {
  organizations =
      modify (λ o. o.id) organization_id
        (λ o. record o { next_ticket_number = o.next_ticket_number + 1 }) db.organizations;
}

unfoldable pub emit : Signal → Db → Db
emit s db = record db { outbox = db.outbox ++ (s ∷ []) }

-- `broadcastTicketChanged` of tickets.service.ts
unfoldable pub broadcast_ticket_changed : ℕ → ℕ → Db → Db
unfolding emit
broadcast_ticket_changed organization_id ticket_id db =
    emit (ticket_updated_org organization_id ticket_id)
      (emit (ticket_updated_room ticket_id ticket_id) db)

-- `NotificationsService.create`
unfoldable pub notify : Notification → Db → Db
unfolding emit
notify n db =
    emit (notification_new n.user_id) (record db { notifications = db.notifications ++ (n ∷ []) })

-- `AuditService.record`; its own failure is swallowed there.
unfoldable pub audit : ℕ → ℕ → AuditAction → ℕ → Db → Db
audit organization_id actor_user_id action entity_id db = record db {
  audit_logs =
      db.audit_logs
      ++ (record {
        organization_id = organization_id;
        actor_user_id = actor_user_id;
        action = action;
        entity_id = entity_id;
      }
          ∷ []);
}

abbrev pub event_eq : WebhookEvent → WebhookEvent → Bool
event_eq on_created on_created = true
event_eq on_status_changed on_status_changed = true
event_eq on_escalated on_escalated = true
event_eq _ _ = false

-- `WebhooksService.trigger`: one delivery for each of the organization's active subscribers.
unfoldable pub trigger : ℕ → WebhookEvent → ℕ → Db → Db
trigger organization_id event ticket_id db = record db {
  outbox =
      db.outbox
      ++ map (λ w. deliver w.id event ticket_id)
          (select
            (λ w.
              w.organization_id == organization_id && w.is_active && any (event_eq event) w.events)
            db.webhooks);
}

-- A handler: what it checks and reads, what it writes, and what it answers from the new state. It
-- throws before it writes, and then nothing is written.
abbrev pub serve :
    {A B : Type 0} → (Db → Result A) → (A → Db → Db) → (A → Db → Result B) → Db → Result B × Db
serve check writes answer db = elim (check db) [
  | ok a ↦ (answer a (writes a db), writes a db)
  | err e ↦ (err e, db)
]

-- What follows a write that may be rejected half-way.
abbrev pub proceed : Result (Unit {0}) → Db → (Db → Db) → Result (Unit {0}) × Db
proceed (err e) db f = (err e, db)
proceed (ok _) db f = (ok tt, f db)

abbrev pub unless_rejected : {B : Type 0} → Result (Unit {0}) → Result B → Result B
unless_rejected (err e) answer = err e
unless_rejected (ok _) answer = answer

-- A handler that throws once more after it has written: what it has written stays.
abbrev pub serve_rejecting :
    {A B : Type 0}
    → (Db → Result A)
    → (A → Db → Result (Unit {0}) × Db)
    → (A → Db → Result B)
    → Db
    → Result B × Db
serve_rejecting check writes answer db =
    serve check (λ a before. (writes a before).1)
      (λ a after. unless_rejected (writes a db).0 (answer a after)) db
