-- ===== src/Sla/Escalation.antt =====
-- What the automatic escalation leaves behind
-- (apps/backend/src/sla/sla-breach-check.service.ts: checkAutoEscalations).
use sentinel_desk.Prelude.{
  ℕ, ◌≡◌, refl, ap, Bool, ◌&&◌, none, List, [], ◌∷◌, ◌++◌, map, arith, length, select, IsDistinct,
  true, not, ◌||◌, ◌⊎◌, inl, inr, some, ◌∙◌, ◌+◌, ◌-◌, ◌*◌, ◌≤◌, ◌<◌, find, Option-cases,
  if◌then◌else◌,
}
use sentinel_desk.Schema.{
  TicketStatus, opened, pending, on_hold, resolved, closed, status_eq, TicketPriority, low, medium,
  high, urgent, priority_eq, SlaPolicy, Ticket, TicketHistory, auto_escalated, auto_escalation,
  escalation_kind, sla_escalated, auto_escalated_to,
}
use sentinel_desk.Store.{Db}
use sentinel_desk.Sla.Sweep.{
  is_escalation_candidate, is_due_for_escalation, auto_escalated_ticket, next_priority,
  rounded_percent, due_or_zero, policy_of, has_elapsed, check_auto_escalations,
}
use sentinel_desk.Sla.Passes.{stamped, pass}

-- The tickets that a pass of the automatic escalation raises.
abbrev pub escalates_now : ℕ → Db → Ticket → Bool
escalates_now now db t = is_escalation_candidate t && is_due_for_escalation now t db

-- The row after the pass: the next priority, once.
abbrev pub escalation_row : ℕ → Db → Ticket → Ticket
escalation_row now db t =
    if escalates_now now db t
    then stamped now (auto_escalated_ticket now (next_priority t.priority)) t
    else t

abbrev pub escalation_entry : ℕ → Ticket → TicketHistory
escalation_entry now t = record {
  ticket_id = t.id;
  actor_id = none;
  action = auto_escalated;
  metadata =
      auto_escalation t.priority (next_priority t.priority)
        (rounded_percent now t.created_at (due_or_zero t.resolution_due_at));
  created_at = now;
}

select-select :
    (p q : Ticket → Bool) (ts : List Ticket) → select q (select p ts) ≡ select (λ t. p t && q t) ts
select-select p q [] = refl
select-select p q (t ∷ ts) = ground (arith, select-select p q ts)

-- The pass as one map over the tickets.
check_auto_escalations-rows :
    (now : ℕ) (db : Db)
    → IsDistinct (map (λ t. t.id) db.tickets)
    → ((check_auto_escalations now db).1.tickets ≡ map (escalation_row now db) db.tickets)
      × ((check_auto_escalations now db).1.history
          ≡ db.history ++ map (escalation_entry now) (select (escalates_now now db) db.tickets))
      × ((check_auto_escalations now db).0 ≡ length (select (escalates_now now db) db.tickets))
unfolding check_auto_escalations
check_auto_escalations-rows now db h =
    let same =
      select-select is_escalation_candidate (λ t. is_due_for_escalation now t db) db.tickets in
    let q =
      pass now (λ t. auto_escalated_ticket now (next_priority t.priority)) auto_escalated
        (λ t.
          auto_escalation t.priority (next_priority t.priority)
            (rounded_percent now t.created_at (due_or_zero t.resolution_due_at)))
        escalation_kind sla_escalated (λ t. auto_escalated_to t.number (next_priority t.priority))
        (λ _ t. refl) (escalates_now now db) db h in
    (rw same q.0, rw same q.1, ap length same)

-- The four priorities in the order in which a ticket rises.
abbrev pub raised : TicketPriority → TicketPriority
raised low = medium
raised medium = high
raised high = urgent
raised urgent = urgent

-- When a ticket is to rise: it is open and not resolved, has not risen before, its clocks run, it is
-- not URGENT, and of its window up to the resolution target its policy's share, in percent, has
-- passed.
pub record Escalates (now : ℕ) (db : Db) (t : Ticket) : Type 0 where
  pub unresolved : t.resolved_at ≡ none
  pub fresh : t.sla_escalated_at ≡ none
  pub running : t.sla_paused_at ≡ none
  pub is_open : (t.status ≡ opened) ⊎ (t.status ≡ pending) ⊎ (t.status ≡ on_hold)
  pub can_rise : (t.priority ≡ low) ⊎ (t.priority ≡ medium) ⊎ (t.priority ≡ high)
  pub policy_id : ℕ
  pub has_policy : t.sla_policy_id ≡ some policy_id
  pub policy : SlaPolicy
  pub found : find (λ p. p.id) policy_id db.policies ≡ some policy
  pub due : ℕ
  pub has_due : t.resolution_due_at ≡ some due
  pub window : t.created_at < due
  pub reached :
      policy.auto_escalate_at_percent * (due - t.created_at) + t.created_at * 100 ≤ now * 100

-- The row after it has risen, and its entry in the history.
abbrev pub raised_row : ℕ → Ticket → Ticket
raised_row now t = record t {
  priority = raised t.priority;
  sla_escalated_at = some now;
  updated_at = now;
}

abbrev pub raised_entry : ℕ → Ticket → TicketHistory
raised_entry now t = record {
  ticket_id = t.id;
  actor_id = none;
  action = auto_escalated;
  metadata =
      auto_escalation t.priority (raised t.priority)
        (rounded_percent now t.created_at (due_or_zero t.resolution_due_at));
  created_at = now;
}

open_status :
    (s : TicketStatus)
    → not (status_eq s resolved || status_eq s closed) ≡ true
    → (s ≡ opened) ⊎ (s ≡ pending) ⊎ (s ≡ on_hold)
open_status opened h = inl refl
open_status pending h = inr (inl refl)
open_status on_hold h = inr (inr refl)
open_status resolved h = cc
open_status closed h = cc

low_priority :
    (p : TicketPriority) → not (priority_eq p urgent) ≡ true → (p ≡ low) ⊎ (p ≡ medium) ⊎ (p ≡ high)
low_priority low h = inl refl
low_priority medium h = inr (inl refl)
low_priority high h = inr (inr refl)
low_priority urgent h = cc

is_escalation_candidate-fields :
    (t : Ticket)
    → is_escalation_candidate t ≡ true
    → (t.resolved_at ≡ none)
      × (t.sla_escalated_at ≡ none)
      × (t.sla_paused_at ≡ none)
      × (not (status_eq t.status resolved || status_eq t.status closed) ≡ true)
      × (not (priority_eq t.priority urgent) ≡ true)
unfolding is_escalation_candidate
is_escalation_candidate-fields t h = ground arith

is_due_for_escalation-fields :
    (now : ℕ) (t : Ticket) (db : Db)
    → is_due_for_escalation now t db ≡ true
    → (policy : SlaPolicy) × (policy_of t db ≡ some policy)
      × (due : ℕ) × (t.resolution_due_at ≡ some due)
      × (has_elapsed now t.created_at due policy.auto_escalate_at_percent ≡ true)
unfolding is_due_for_escalation
is_due_for_escalation-fields now t db h = elim (Option-cases (policy_of t db)) [
  | inl e ↦ absurd (ground arith)
  | inr (policy, e) ↦ elim (Option-cases t.resolution_due_at) [
    | inl n ↦ absurd (ground arith)
    | inr (due, d) ↦ (policy, e, due, d, ground arith)
  ]
]

policy_of-found :
    (t : Ticket) (db : Db) (policy : SlaPolicy)
    → policy_of t db ≡ some policy
    → (id : ℕ) × (t.sla_policy_id ≡ some id) × (find (λ p. p.id) id db.policies ≡ some policy)
policy_of-found t db policy h = elim (Option-cases t.sla_policy_id) [
  | inl e ↦ absurd (ground arith)
  | inr (id, e) ↦ (id, e, ground arith)
]

escalates_now-Escalates :
    (now : ℕ) (db : Db) (t : Ticket) → escalates_now now db t ≡ true → Escalates now db t
escalates_now-Escalates now db t h =
    let (unresolved, fresh, running, status, priority) =
      is_escalation_candidate-fields t (ground arith) in
    let (policy, e, due, d, passed) = is_due_for_escalation-fields now t db (ground arith) in
    let (id, has_policy, found) = policy_of-found t db policy e in
    record {
      unresolved = unresolved;
      fresh = fresh;
      running = running;
      is_open = open_status t.status status;
      can_rise = low_priority t.priority priority;
      policy_id = id;
      has_policy = has_policy;
      policy = policy;
      found = found;
      due = due;
      has_due = d;
      window = ground arith;
      reached = ground arith;
    }

Escalates-candidate :
    (now : ℕ) (db : Db) (t : Ticket) → Escalates now db t → is_escalation_candidate t ≡ true
unfolding is_escalation_candidate
Escalates-candidate now db t e =
    let open_one = e.is_open in
    let low_one = e.can_rise in rw (e.unresolved, e.fresh, e.running, e.has_due) (ground arith)

policy_of-some :
    (t : Ticket) (db : Db) (id : ℕ)
    → t.sla_policy_id ≡ some id
    → policy_of t db ≡ find (λ p. p.id) id db.policies
policy_of-some t db id h = ground arith

Escalates-due :
    (now : ℕ) (db : Db) (t : Ticket) → Escalates now db t → is_due_for_escalation now t db ≡ true
unfolding is_due_for_escalation
Escalates-due now db t e =
    let window = e.window in
    let reached = e.reached in
    let due = e.has_due in
    let policy = policy_of-some t db e.policy_id e.has_policy ∙ e.found in ground arith

raised-next_priority : (p : TicketPriority) → next_priority p ≡ raised p
raised-next_priority low = refl
raised-next_priority medium = refl
raised-next_priority high = refl
raised-next_priority urgent = refl

map_same : {A B : Type 0} (f g : A → B) (xs : List A) → ((x : A) → f x ≡ g x) → map f xs ≡ map g xs
map_same f g [] h = refl
map_same f g (x ∷ xs) h = rw (h x, map_same f g xs h) refl

stamped_row : (now : ℕ) → ¬ (some now ≡ none)
stamped_row now h = cc

-- Where the tickets' keys are distinct, one pass of the automatic escalation at an instant picks
-- exactly the tickets that are to rise at that instant: those that are open and not resolved, are not
-- paused, are not URGENT, have not risen before, and have a found policy and a resolution target
-- after their creation of whose window the policy's percentage has passed. Each of them gets the next
-- priority (LOW to MEDIUM, MEDIUM to HIGH, HIGH to URGENT) and the stamp, every other row stays as it
-- is, the history grows by one entry for each of them, and the pass reports how many they are. A
-- ticket that has risen is not to rise again at any time.
pub check_auto_escalations_exact :
    (now : ℕ) (db : Db)
    → IsDistinct (map (λ t. t.id) db.tickets)
    → (picks : Ticket → Bool) × ((t : Ticket) → picks t ≡ true → Escalates now db t)
      × ((t : Ticket) → Escalates now db t → picks t ≡ true)
      × ((check_auto_escalations now db).1.tickets
          ≡ map (λ t. if picks t then raised_row now t else t) db.tickets)
      × ((check_auto_escalations now db).1.history
          ≡ db.history ++ map (raised_entry now) (select picks db.tickets))
      × ((check_auto_escalations now db).0 ≡ length (select picks db.tickets))
      × ((later : ℕ) (other : Db) (t : Ticket) → ¬ Escalates later other (raised_row now t))
check_auto_escalations_exact now db h =
    let (rows, entries, count) = check_auto_escalations-rows now db h in
    (
      escalates_now now db,
      escalates_now-Escalates now db,
      λ t e. rw (Escalates-candidate now db t e, Escalates-due now db t e) refl,
      rows
          ∙ map_same (escalation_row now db)
              (λ t. if escalates_now now db t then raised_row now t else t) db.tickets
              (λ t.
                ap
                  (λ p.
                    if escalates_now now db t
                    then stamped now (auto_escalated_ticket now p) t
                    else t)
                  (raised-next_priority t.priority)),
      entries
          ∙ ap (λ es. db.history ++ es)
              (map_same (escalation_entry now) (raised_entry now)
                (select (escalates_now now db) db.tickets)
                (λ t.
                  ap
                    (λ p.
                      let e : TicketHistory = record (raised_entry now t) {
                        metadata =
                            auto_escalation t.priority p
                              (rounded_percent now t.created_at (due_or_zero t.resolution_due_at));
                      } in
                      e)
                    (raised-next_priority t.priority))),
      count,
      λ later other t e. stamped_row now e.fresh,
    )
