-- ===== src/Sla/Passes.antt =====
-- What one pass of the sweep over the tickets leaves behind
-- (apps/backend/src/sla/sla-breach-check.service.ts: checkResponseBreaches,
-- checkResolutionBreaches, checkAutoEscalations).
use mathlib.Core.List.{append-nil, append_assoc}
use sentinel_desk.Prelude.{
  ℕ, ◌≡◌, refl, sym, ◌∙◌, ap, inl, inr, Bool, false, none, List, [], ◌∷◌, ◌++◌, map, arith, length,
  select, includes, IsDistinct, modify, if◌then◌else◌, Bool-cases, Option-cases, ==_self,
}
use sentinel_desk.Schema.{
  Ticket, TicketHistory, TicketHistoryAction, Metadata, NotificationType, NotificationTitle,
  BreachKind, response_breach_kind, resolution_breach_kind, sla_breached, response_breach,
  resolution_breach, response_sla_breached, no_metadata, resolution_sla_breached,
}
use sentinel_desk.Store.{Db, update_ticket, write_history, emit, notify}
use sentinel_desk.Sla.Sweep.{
  notify_and_broadcast, record_breach, for_each, is_response_candidate, response_breached_ticket,
  check_response_breaches, is_resolution_candidate, resolution_breached_ticket,
  check_resolution_breaches,
}

abbrev pub key : Ticket → ℕ
key t = t.id

modify_head :
    (g : Ticket → Ticket) (t : Ticket) (ts : List Ticket) → modify key t.id g (t ∷ ts) ≡ g t ∷ ts
modify_head g t ts = rw (==_self t.id) refl

-- The row as the pass writes it.
abbrev pub stamped : ℕ → (Ticket → Ticket) → Ticket → Ticket
stamped now f t = record (f t) { updated_at = now }

module _ (now : ℕ) (f : Ticket → Ticket → Ticket) (action : TicketHistoryAction)
    (metadata : Ticket → Metadata) (kind : BreachKind) (type : NotificationType)
    (title : Ticket → NotificationTitle) where
  abbrev pub mark : Ticket → Db → Db
  mark t = record_breach now (f t) action (metadata t) kind type (title t) t

  -- The history entry that the pass writes for a ticket.
  abbrev pub entry : Ticket → TicketHistory
  entry t = record {
    ticket_id = t.id;
    actor_id = none;
    action = action;
    metadata = metadata t;
    created_at = now;
  }

  abbrev rewrite_all : List Ticket → List Ticket → List Ticket
  rewrite_all [] ts = ts
  rewrite_all (c ∷ cs) ts = rewrite_all cs (modify key c.id (stamped now (f c)) ts)

  pub tables-mark :
      (c : Ticket) (db : Db)
      → ((mark c db).tickets ≡ modify key c.id (stamped now (f c)) db.tickets)
        × ((mark c db).history ≡ db.history ++ entry c ∷ [])
  unfolding record_breach notify_and_broadcast write_history update_ticket emit notify
  tables-mark c db = elim (Option-cases c.assignee_id) [
    | inl e ↦ rw e (refl, refl)
    | inr (a, e) ↦ rw e (refl, refl)
  ]

  tables-for_each :
      (cs : List Ticket) (db : Db)
      → ((for_each mark cs db).tickets ≡ rewrite_all cs db.tickets)
        × ((for_each mark cs db).history ≡ db.history ++ map entry cs)
  unfolding for_each
  tables-for_each [] db = (refl, sym (append-nil _))
  tables-for_each (c ∷ cs) db =
      let (ts, hs) = tables-for_each cs (mark c db) in
      let (t1, h1) = tables-mark c db in
      (
        ts ∙ ap (rewrite_all cs) t1,
        hs
            ∙ ap (λ (l : List TicketHistory). l ++ map entry cs) h1
            ∙ append_assoc db.history (entry c ∷ []) (map entry cs),
      )

  module _ (keeps_key : (c t : Ticket) → (f c t).id ≡ t.id) where
    -- Rewriting rows that are listed elsewhere leaves the first row alone.
    rewrite_all-skip :
        (cs : List Ticket) (x : Ticket) (xs : List Ticket)
        → includes x.id (map key cs) ≡ false
        → rewrite_all cs (x ∷ xs) ≡ x ∷ rewrite_all cs xs
    rewrite_all-skip [] x xs h = refl
    rewrite_all-skip (c ∷ cs) x xs h =
        ground (arith, rewrite_all-skip cs x (modify key c.id (stamped now (f c)) xs))

    includes-select :
        (p : Ticket → Bool) (k : ℕ) (ts : List Ticket)
        → includes k (map key ts) ≡ false
        → includes k (map key (select p ts)) ≡ false
    includes-select p k [] h = refl
    includes-select p k (t ∷ ts) h = ground (arith, includes-select p k ts)

    abbrev rewrite_if : (Ticket → Bool) → Ticket → Ticket
    rewrite_if p t = if p t then stamped now (f t) t else t

    -- Rewriting the selected rows one by one is rewriting each row that is selected.
    rewrite_all-select :
        (p : Ticket → Bool) (ts : List Ticket)
        → IsDistinct (map key ts)
        → rewrite_all (select p ts) ts ≡ map (rewrite_if p) ts
    rewrite_all-select p [] h = refl
    rewrite_all-select p (t ∷ ts) h =
        let rest = rewrite_all-select p ts h.1 in
        let apart = includes-select p t.id ts h.0 in
        elim (Bool-cases (p t)) [
          | inl e ↦ rw e (
              ap (rewrite_all (select p ts)) (modify_head (stamped now (f t)) t ts)
              ∙ rewrite_all-skip (select p ts) (stamped now (f t) t) ts (rw keeps_key apart)
              ∙ ap (λ (l : List Ticket). stamped now (f t) t ∷ l) rest)
          | inr e ↦
              rw e
                (rewrite_all-skip (select p ts) t ts apart ∙ ap (λ (l : List Ticket). t ∷ l) rest)
        ]

    -- A pass over the selected tickets.
    pub pass :
        (p : Ticket → Bool) (db : Db)
        → IsDistinct (map key db.tickets)
        → ((for_each mark (select p db.tickets) db).tickets ≡ map (rewrite_if p) db.tickets)
          × ((for_each mark (select p db.tickets) db).history
              ≡ db.history ++ map entry (select p db.tickets))
    pass p db h =
        let (ts, hs) = tables-for_each (select p db.tickets) db in
        (ts ∙ rewrite_all-select p db.tickets h, hs)

    -- Where the rewriting clears the condition, nothing is selected afterwards.
    pub select-rewrite_if :
        (p : Ticket → Bool) (ts : List Ticket)
        → ((t : Ticket) → p (stamped now (f t) t) ≡ false)
        → select p (map (rewrite_if p) ts) ≡ []
    select-rewrite_if p [] h = refl
    select-rewrite_if p (t ∷ ts) h = elim (Bool-cases (p t)) [
      | inl e ↦ rw (e, h t) (select-rewrite_if p ts h)
      | inr e ↦ rw (e, e) (select-rewrite_if p ts h)
    ]

-- The row after a pass of the response check.
abbrev pub response_row : ℕ → Ticket → Ticket
response_row now t =
    if is_response_candidate now t then stamped now response_breached_ticket t else t

-- The history entry of a breach.
abbrev pub breach_entry : ℕ → TicketHistoryAction → Ticket → TicketHistory
breach_entry now action t = record {
  ticket_id = t.id;
  actor_id = none;
  action = action;
  metadata = no_metadata;
  created_at = now;
}

-- Where the tickets' keys are distinct, the response check flags the tickets of its condition, each
-- once, and no other; it reports how many these are, writes one history entry for each of them and
-- no other, and a second check at the same instant finds none.
pub check_response_breaches_exact :
    (now : ℕ) (db : Db)
    → IsDistinct (map key db.tickets)
    → ((check_response_breaches now db).1.tickets ≡ map (response_row now) db.tickets)
      × ((check_response_breaches now db).1.history
          ≡ db.history
            ++ map
                (breach_entry now response_sla_breached)
                (select (is_response_candidate now) db.tickets))
      × ((check_response_breaches now db).0
          ≡ length (select (is_response_candidate now) db.tickets))
      × ((check_response_breaches now (check_response_breaches now db).1).0 ≡ 0)
unfolding check_response_breaches is_response_candidate
check_response_breaches_exact now db h =
    let q =
      pass now (λ _. response_breached_ticket) response_sla_breached (λ _. no_metadata)
        response_breach_kind sla_breached (λ t. response_breach t.number) (λ _ t. refl)
        (is_response_candidate now) db h in
    (
      q.0,
      q.1,
      refl,
      ap (λ ts. length (select (is_response_candidate now) ts)) q.0
          ∙ ap length (
              select-rewrite_if now (λ _. response_breached_ticket) response_sla_breached
                (λ _. no_metadata) response_breach_kind sla_breached (λ t. response_breach t.number)
                (λ _ t. refl) (is_response_candidate now) db.tickets (λ t. ground arith)),
    )

-- The row after a pass of the resolution check.
abbrev pub resolution_row : ℕ → Ticket → Ticket
resolution_row now t =
    if is_resolution_candidate now t then stamped now resolution_breached_ticket t else t

-- Where the tickets' keys are distinct, the resolution check flags the tickets of its condition, each
-- once, and no other; it reports how many these are, writes one history entry for each of them and
-- no other, and a second check at the same instant finds none.
pub check_resolution_breaches_exact :
    (now : ℕ) (db : Db)
    → IsDistinct (map key db.tickets)
    → ((check_resolution_breaches now db).1.tickets ≡ map (resolution_row now) db.tickets)
      × ((check_resolution_breaches now db).1.history
          ≡ db.history
            ++ map
                (breach_entry now resolution_sla_breached)
                (select (is_resolution_candidate now) db.tickets))
      × ((check_resolution_breaches now db).0
          ≡ length (select (is_resolution_candidate now) db.tickets))
      × ((check_resolution_breaches now (check_resolution_breaches now db).1).0 ≡ 0)
unfolding check_resolution_breaches is_resolution_candidate
check_resolution_breaches_exact now db h =
    let q =
      pass now (λ _. resolution_breached_ticket) resolution_sla_breached (λ _. no_metadata)
        resolution_breach_kind sla_breached (λ t. resolution_breach t.number) (λ _ t. refl)
        (is_resolution_candidate now) db h in
    (
      q.0,
      q.1,
      refl,
      ap (λ ts. length (select (is_resolution_candidate now) ts)) q.0
          ∙ ap length (
              select-rewrite_if now (λ _. resolution_breached_ticket) resolution_sla_breached
                (λ _. no_metadata) resolution_breach_kind sla_breached
                (λ t. resolution_breach t.number) (λ _ t. refl) (is_resolution_candidate now)
                db.tickets (λ t. ground arith)),
    )
