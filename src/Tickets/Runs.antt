-- ===== src/Tickets/Runs.antt =====
-- Runs of the whole desk: requests of any users in any order, with sweeps between them
-- (apps/backend/src/tickets/tickets.controller.ts, apps/backend/src/sla/sla-breach-check.service.ts).
use mathlib.Core.List.{append-nil, append_assoc, map-append}
use sentinel_desk.Prelude.{
  ℕ, ◌≡◌, refl, sym, ◌∙◌, ap, Option, List, [], ◌∷◌, ◌++◌, map, arith, All, modify-All,
  map-modify_found, map-modify, select,
}
use sentinel_desk.Schema.{
  AuthenticatedUser, Ticket, TicketHistoryAction, Metadata, NotificationType, NotificationTitle,
  BreachKind, response_sla_breached, resolution_sla_breached, no_metadata, response_breach_kind,
  resolution_breach_kind, sla_breached, response_breach, resolution_breach, auto_escalated,
  auto_escalation, escalation_kind, sla_escalated, auto_escalated_to,
}
use sentinel_desk.Store.{Db}
use sentinel_desk.Sla.Sweep.{
  for_each, response_breached_ticket, resolution_breached_ticket, auto_escalated_ticket,
  next_priority, rounded_percent, due_or_zero, is_response_candidate, is_resolution_candidate,
  is_escalation_candidate, is_due_for_escalation, check_response_breaches,
  check_resolution_breaches, check_auto_escalations, sweep,
}
use sentinel_desk.Sla.Passes.{tables-mark, mark, stamped}
use sentinel_desk.Tickets.Endpoints.{Event, request, tick, step, run}
use sentinel_desk.Tickets.Effects.{
  IsSound, RowStep, Effect, untouched, rewritten, added, Effect-IsSound,
}
use sentinel_desk.Tickets.Effects.Handle.{handle-Effect}

-- What a ticket keeps for good.
pub record Identity : Type 0 where
  pub id : ℕ
  pub organization_id : ℕ
  pub number : ℕ
  pub requester_id : ℕ
  pub split_from_id : Option ℕ
  pub created_at : ℕ

abbrev pub identity : Ticket → Identity
identity t = record {
  id = t.id;
  organization_id = t.organization_id;
  number = t.number;
  requester_id = t.requester_id;
  split_from_id = t.split_from_id;
  created_at = t.created_at;
}

identity-RowStep : (t u : Ticket) → RowStep t u → identity u ≡ identity t
identity-RowStep t u s = ground arith

-- A row that the sweep writes keeps what it was.
module _ (now : ℕ) (f : Ticket → Ticket → Ticket)
    (row_step : (c t : Ticket) → RowStep t (stamped now (f c) t)) (action : TicketHistoryAction)
    (metadata : Ticket → Metadata) (kind : BreachKind) (type : NotificationType)
    (title : Ticket → NotificationTitle) where
  for_each-IsSound :
      (cs : List Ticket) (db : Db)
      → All IsSound db.tickets
      → All IsSound (for_each (mark now f action metadata kind type title) cs db).tickets
  unfolding for_each
  for_each-IsSound [] db all = all
  for_each-IsSound (c ∷ cs) db all =
      for_each-IsSound cs (mark now f action metadata kind type title c db) (
        rw ((tables-mark now f action metadata kind type title c db).0) (
          modify-All (λ t. t.id) IsSound c.id (stamped now (f c)) db.tickets
            (λ t _ s. (row_step c t).keeps_sound s) all))

  identities-for_each :
      (cs : List Ticket) (db : Db)
      → map identity (for_each (mark now f action metadata kind type title) cs db).tickets
        ≡ map identity db.tickets
  unfolding for_each
  identities-for_each [] db = refl
  identities-for_each (c ∷ cs) db =
      identities-for_each cs (mark now f action metadata kind type title c db)
      ∙ ap (map identity) ((tables-mark now f action metadata kind type title c db).0)
      ∙ map-modify (λ t. t.id) identity c.id (stamped now (f c)) db.tickets
          (λ t. identity-RowStep t (stamped now (f c) t) (row_step c t))

module _ (now : ℕ) (db : Db) (all : All IsSound db.tickets) where
  check_response_breaches-IsSound : All IsSound (check_response_breaches now db).1.tickets
  unfolding check_response_breaches
  check_response_breaches-IsSound =
      for_each-IsSound now (λ _. response_breached_ticket) (λ c t. ground arith)
        response_sla_breached (λ _. no_metadata) response_breach_kind sla_breached
        (λ t. response_breach t.number) (select (is_response_candidate now) db.tickets) db all

  check_resolution_breaches-IsSound : All IsSound (check_resolution_breaches now db).1.tickets
  unfolding check_resolution_breaches
  check_resolution_breaches-IsSound =
      for_each-IsSound now (λ _. resolution_breached_ticket) (λ c t. ground arith)
        resolution_sla_breached (λ _. no_metadata) resolution_breach_kind sla_breached
        (λ t. resolution_breach t.number) (select (is_resolution_candidate now) db.tickets) db all

  check_auto_escalations-IsSound : All IsSound (check_auto_escalations now db).1.tickets
  unfolding check_auto_escalations
  check_auto_escalations-IsSound =
      for_each-IsSound now (λ t. auto_escalated_ticket now (next_priority t.priority))
        (λ c t. ground arith) auto_escalated
        (λ t.
          auto_escalation t.priority (next_priority t.priority)
            (rounded_percent now t.created_at (due_or_zero t.resolution_due_at)))
        escalation_kind sla_escalated (λ t. auto_escalated_to t.number (next_priority t.priority))
        (select (λ t. is_due_for_escalation now t db) (select is_escalation_candidate db.tickets))
        db all

sweep-IsSound : (now : ℕ) (db : Db) → All IsSound db.tickets → All IsSound (sweep now db).tickets
unfolding sweep
sweep-IsSound now db all =
    check_auto_escalations-IsSound now _
      (check_resolution_breaches-IsSound now _ (check_response_breaches-IsSound now db all))

step-IsSound : (e : Event) (db : Db) → All IsSound db.tickets → All IsSound (step e db).tickets
unfolding step
step-IsSound (request env user r) db all =
    Effect-IsSound user db _ (handle-Effect env user db r) all
step-IsSound (tick now) db all = sweep-IsSound now db all

-- From a desk whose tickets are sound, every run keeps every ticket sound: a RESOLVED ticket has
-- the time of its resolution and a CLOSED one of its closing, a PENDING or ON_HOLD one has a stopped
-- SLA clock, a rating and its time stand together, and no ticket is merged into itself.
pub run-IsSound :
    (es : List Event) (db : Db) → All IsSound db.tickets → All IsSound (run es db).tickets
unfolding run
run-IsSound [] db all = all
run-IsSound (e ∷ es) db all = run-IsSound es (step e db) (step-IsSound e db all)

-- Tickets are added at the end, and none goes away or becomes another.
abbrev pub Extends : List Identity → List Identity → Type 0
Extends old new = (more : List Identity) × (new ≡ old ++ more)

module _ (now : ℕ) (db : Db) where
  identities-check_response_breaches :
      map identity (check_response_breaches now db).1.tickets ≡ map identity db.tickets
  unfolding check_response_breaches
  identities-check_response_breaches =
      identities-for_each now (λ _. response_breached_ticket) (λ c t. ground arith)
        response_sla_breached (λ _. no_metadata) response_breach_kind sla_breached
        (λ t. response_breach t.number) (select (is_response_candidate now) db.tickets) db

  identities-check_resolution_breaches :
      map identity (check_resolution_breaches now db).1.tickets ≡ map identity db.tickets
  unfolding check_resolution_breaches
  identities-check_resolution_breaches =
      identities-for_each now (λ _. resolution_breached_ticket) (λ c t. ground arith)
        resolution_sla_breached (λ _. no_metadata) resolution_breach_kind sla_breached
        (λ t. resolution_breach t.number) (select (is_resolution_candidate now) db.tickets) db

  identities-check_auto_escalations :
      map identity (check_auto_escalations now db).1.tickets ≡ map identity db.tickets
  unfolding check_auto_escalations
  identities-check_auto_escalations =
      identities-for_each now (λ t. auto_escalated_ticket now (next_priority t.priority))
        (λ c t. ground arith) auto_escalated
        (λ t.
          auto_escalation t.priority (next_priority t.priority)
            (rounded_percent now t.created_at (due_or_zero t.resolution_due_at)))
        escalation_kind sla_escalated (λ t. auto_escalated_to t.number (next_priority t.priority))
        (select (λ t. is_due_for_escalation now t db) (select is_escalation_candidate db.tickets))
        db

identities-sweep :
    (now : ℕ) (db : Db) → map identity (sweep now db).tickets ≡ map identity db.tickets
unfolding sweep
identities-sweep now db =
    identities-check_auto_escalations now
      (check_resolution_breaches now (check_response_breaches now db).1).1
    ∙ identities-check_resolution_breaches now (check_response_breaches now db).1
    ∙ identities-check_response_breaches now db

Effect-Extends :
    (user : AuthenticatedUser) (db : Db) (after : List Ticket)
    → Effect user db after
    → Extends (map identity db.tickets) (map identity after)
Effect-Extends user db after (untouched e) = ([], ap (map identity) e ∙ sym (append-nil _))
Effect-Extends user db after (rewritten id t f found may s e) = (
  [],
  ap (map identity) e
      ∙ map-modify_found (λ u. u.id) identity id f db.tickets t found (identity-RowStep t (f t) s)
      ∙ sym (append-nil _),
)
Effect-Extends user db after (added t may s e) =
    (identity t ∷ [], ap (map identity) e ∙ map-append identity db.tickets (t ∷ []))

step-Extends :
    (e : Event) (db : Db) → Extends (map identity db.tickets) (map identity (step e db).tickets)
unfolding step
step-Extends (request env user r) db = Effect-Extends user db _ (handle-Effect env user db r)
step-Extends (tick now) db = ([], identities-sweep now db ∙ sym (append-nil _))

-- In every run, the tickets there are stay, in their places, with their keys, organizations,
-- numbers, requesters, origins and times of creation; new tickets come after them.
pub run-Extends :
    (es : List Event) (db : Db)
    → Extends (map identity db.tickets) (map identity (run es db).tickets)
unfolding run
run-Extends [] db = ([], sym (append-nil _))
run-Extends (e ∷ es) db =
    let (m, p) = step-Extends e db in
    let (n, q) = run-Extends es (step e db) in
    (m ++ n, q ∙ ap (λ (l : List Identity). l ++ n) p ∙ append_assoc (map identity db.tickets) m n)
