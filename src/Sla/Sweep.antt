-- ===== src/Sla/Sweep.antt =====
-- The sweep that runs every minute (apps/backend/src/sla/sla-breach-check.service.ts). Its three
-- checks run at once in the program; they select and write different columns, and are taken in the
-- order in which they are started.
use mathlib.Core.Option
use sentinel_desk.Prelude.{
  ℕ, ◌+◌, ◌-◌, ◌*◌, ◌/◌, Bool, true, false, not, ◌&&◌, ◌||◌, Option, none, some, List, [], ◌∷◌,
  Text, ltb, leb, find, is_none, is_some, length, select,
}
use sentinel_desk.Schema.{
  Ticket, resolved, closed, status_eq, TicketPriority, low, medium, high, urgent, priority_eq,
  TicketHistoryAction, response_sla_breached, resolution_sla_breached, auto_escalated, no_metadata,
  auto_escalation, Metadata, SlaPolicy, BreachKind, response_breach_kind, resolution_breach_kind,
  escalation_kind, breach_email, NotificationType, sla_breached, sla_escalated, NotificationTitle,
  response_breach, resolution_breach, auto_escalated_to, plain, ticket_updated_room,
  ticket_updated_org,
}
use sentinel_desk.Store.{Db, find_member, update_ticket, write_history, emit, notify}

-- `NEXT_PRIORITY`
abbrev pub next_priority : TicketPriority → TicketPriority
next_priority low = medium
next_priority medium = high
next_priority high = urgent
next_priority urgent = urgent

-- `{ lt: now }` of a column that may be null.
abbrev pub is_before : Option ℕ → ℕ → Bool
is_before none now = false
is_before (some t) now = ltb t now

-- `notifyAndBroadcast`
unfoldable pub notify_and_broadcast : Ticket → NotificationType → NotificationTitle → Db → Db
notify_and_broadcast ticket type title db =
    let db1 =
      emit (ticket_updated_org ticket.organization_id ticket.id)
        (emit (ticket_updated_room ticket.id ticket.id) db) in
    elim ticket.assignee_id [
      | none ↦ db1
      | some assignee ↦
          notify
            (record {
              organization_id = ticket.organization_id;
              user_id = assignee;
              type = type;
              title = title;
              body = plain ticket.subject;
              ticket_id = ticket.id;
            })
            db1
    ]

abbrev pub assignee_email : Ticket → Db → Option Text
assignee_email ticket db = elim ticket.assignee_id [
  | none ↦ none
  | some id ↦ Option.map (λ m. m.email) (find_member id db)
]

-- One ticket of a check: the row and its history, the mail job, the notification.
unfoldable pub record_breach :
    ℕ
    → (Ticket → Ticket)
    → TicketHistoryAction
    → Metadata
    → BreachKind
    → NotificationType
    → NotificationTitle
    → Ticket
    → Db
    → Db
unfolding notify_and_broadcast
record_breach now f action metadata kind type title ticket db =
    let db1 = write_history now ticket.id none action metadata (update_ticket now ticket.id f db) in
    notify_and_broadcast ticket type title
      (emit (breach_email ticket.id kind (assignee_email ticket db)) db1)

-- The `for` loop over the candidates.
unfoldable pub for_each : (Ticket → Db → Db) → List Ticket → Db → Db
for_each body [] db = db
for_each body (t ∷ ts) db = for_each body ts (body t db)

-- The `where` clause of `checkResponseBreaches`.
unfoldable pub is_response_candidate : ℕ → Ticket → Bool
is_response_candidate now t =
    is_before t.response_due_at now
    && is_none t.first_response_at
    && not t.response_breached
    && is_none t.sla_paused_at
    && not (status_eq t.status closed)

abbrev pub response_breached_ticket : Ticket → Ticket
response_breached_ticket t = record t { response_breached = true }

abbrev pub mark_response : ℕ → Ticket → Db → Db
mark_response now t =
    record_breach now response_breached_ticket response_sla_breached no_metadata
      response_breach_kind sla_breached (response_breach t.number) t

unfoldable pub check_response_breaches : ℕ → Db → ℕ × Db
unfolding for_each record_breach is_response_candidate
check_response_breaches now db =
    let candidates = select (is_response_candidate now) db.tickets in
    (length candidates, for_each (mark_response now) candidates db)

-- The `where` clause of `checkResolutionBreaches`.
unfoldable pub is_resolution_candidate : ℕ → Ticket → Bool
is_resolution_candidate now t =
    is_before t.resolution_due_at now
    && is_none t.resolved_at
    && not t.resolution_breached
    && is_none t.sla_paused_at
    && not (status_eq t.status resolved || status_eq t.status closed)

abbrev pub resolution_breached_ticket : Ticket → Ticket
resolution_breached_ticket t = record t { resolution_breached = true }

abbrev pub mark_resolution : ℕ → Ticket → Db → Db
mark_resolution now t =
    record_breach now resolution_breached_ticket resolution_sla_breached no_metadata
      resolution_breach_kind sla_breached (resolution_breach t.number) t

unfoldable pub check_resolution_breaches : ℕ → Db → ℕ × Db
unfolding for_each record_breach is_resolution_candidate
check_resolution_breaches now db =
    let candidates = select (is_resolution_candidate now) db.tickets in
    (length candidates, for_each (mark_resolution now) candidates db)

-- The `where` clause of `checkAutoEscalations`.
unfoldable pub is_escalation_candidate : Ticket → Bool
is_escalation_candidate t =
    is_none t.resolved_at
    && is_none t.sla_escalated_at
    && is_none t.sla_paused_at
    && is_some t.resolution_due_at
    && not (status_eq t.status resolved || status_eq t.status closed)
    && not (priority_eq t.priority urgent)

abbrev pub policy_of : Ticket → Db → Option SlaPolicy
policy_of t db = elim t.sla_policy_id [ none ↦ none | some id ↦ find (λ p. p.id) id db.policies ]

-- Whether the part of the window that has passed, in percent, has reached the threshold. Both sides
-- are multiplied out, so that nothing is rounded.
abbrev pub has_elapsed : ℕ → ℕ → ℕ → ℕ → Bool
has_elapsed now created due percent =
    ltb created due && leb (percent * (due - created) + created * 100) (now * 100)

-- `Math.round(elapsedPercent)`
abbrev pub rounded_percent : ℕ → ℕ → ℕ → ℕ
rounded_percent now created due = ((now - created) * 200 + (due - created)) / (2 * (due - created))

-- The policy's threshold has passed: the loop goes on to the next ticket where it has not.
unfoldable pub is_due_for_escalation : ℕ → Ticket → Db → Bool
is_due_for_escalation now t db = elim (policy_of t db) [
  | none ↦ false
  | some policy ↦ elim t.resolution_due_at [
    | none ↦ false
    | some due ↦ has_elapsed now t.created_at due policy.auto_escalate_at_percent
  ]
]

abbrev pub auto_escalated_ticket : ℕ → TicketPriority → Ticket → Ticket
auto_escalated_ticket now priority t = record t { priority = priority; sla_escalated_at = some now }

abbrev pub due_or_zero : Option ℕ → ℕ
due_or_zero none = 0
due_or_zero (some due) = due

abbrev pub mark_escalation : ℕ → Ticket → Db → Db
mark_escalation now t =
    record_breach now (auto_escalated_ticket now (next_priority t.priority)) auto_escalated
      (auto_escalation t.priority (next_priority t.priority)
        (rounded_percent now t.created_at (due_or_zero t.resolution_due_at)))
      escalation_kind sla_escalated (auto_escalated_to t.number (next_priority t.priority)) t

unfoldable pub check_auto_escalations : ℕ → Db → ℕ × Db
unfolding for_each record_breach is_escalation_candidate is_due_for_escalation
check_auto_escalations now db =
    let candidates = select is_escalation_candidate db.tickets in
    let due = select (λ t. is_due_for_escalation now t db) candidates in
    (length due, for_each (mark_escalation now) due db)

-- `sweep`
unfoldable pub sweep : ℕ → Db → Db
unfolding check_response_breaches check_resolution_breaches check_auto_escalations
sweep now db =
    (check_auto_escalations now
      (check_resolution_breaches now (check_response_breaches now db).1).1).1
