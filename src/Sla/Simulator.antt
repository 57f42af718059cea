-- ===== src/Sla/Simulator.antt =====
-- The preview of due dates (apps/backend/src/sla/sla.service.ts: simulate, behind
-- apps/backend/src/sla/sla-simulator.controller.ts).
use sentinel_desk.Prelude.{
  ℕ, ◌≡◌, refl, inl, inr, Option, none, some, Text, Result, ok, ◌>>=◌, Option-cases, Result-cases,
}
use sentinel_desk.Schema.{TicketPriority, SlaPolicy, SlaPolicyRule}
use sentinel_desk.Store.{Db, Env}
use sentinel_desk.Sla.BusinessHours.{add_business_minutes}
use sentinel_desk.Sla.Service.{
  DueDates, default_policy, rule_for, to_business_hours_config, due_dates_by_rule,
  compute_due_dates_for_new_ticket,
}

pub record Preview : Type 0 where
  pub policy_name : Option Text
  pub response_target_minutes : Option ℕ
  pub resolution_target_minutes : Option ℕ
  pub response_due_at : Option ℕ
  pub resolution_due_at : Option ℕ

-- The preview without a policy, and with a policy that has no rule for the priority.
abbrev pub undated : Option Text → Preview
undated name = record {
  policy_name = name;
  response_target_minutes = none;
  resolution_target_minutes = none;
  response_due_at = none;
  resolution_due_at = none;
}

unfoldable pub preview_by_rule : Env → SlaPolicy → ℕ → SlaPolicyRule → Result Preview
preview_by_rule env policy from rule = do
  let config = to_business_hours_config policy.business_hours
  response ← add_business_minutes env.luxon from rule.response_target_minutes config
  resolution ← add_business_minutes env.luxon from rule.resolution_target_minutes config
  ok (record {
    policy_name = some policy.name;
    response_target_minutes = some rule.response_target_minutes;
    resolution_target_minutes = some rule.resolution_target_minutes;
    response_due_at = some response;
    resolution_due_at = some resolution;
  })

-- `simulate`
unfoldable pub simulate : Env → ℕ → TicketPriority → ℕ → Db → Result Preview
unfolding preview_by_rule
simulate env organization_id priority from db = elim (default_policy organization_id db.policies) [
  | none ↦ ok (undated none)
  | some policy ↦ elim (rule_for priority policy.rules) [
    | none ↦ ok (undated (some policy.name))
    | some rule ↦ preview_by_rule env policy from rule
  ]
]

-- The two due dates of a result.
abbrev pub previewed : Result Preview → Result (Option ℕ × Option ℕ)
previewed r = r >>= λ p. ok (p.response_due_at, p.resolution_due_at)

abbrev pub computed : Result DueDates → Result (Option ℕ × Option ℕ)
computed r = r >>= λ d. ok (d.response_due_at, d.resolution_due_at)

by_rule :
    (env : Env) (policy : SlaPolicy) (from : ℕ) (rule : SlaPolicyRule)
    → previewed (preview_by_rule env policy from rule)
      ≡ computed (due_dates_by_rule env policy from rule)
unfolding preview_by_rule due_dates_by_rule
by_rule env policy from rule =
    let config = to_business_hours_config policy.business_hours in
    elim (Result-cases (add_business_minutes env.luxon from rule.response_target_minutes config)) [
      | inl (e, p) ↦ rw (p, preview_by_rule, due_dates_by_rule) refl
      | inr (r, p) ↦
          elim (Result-cases
            (add_business_minutes env.luxon from rule.resolution_target_minutes config)) [
              | inl (e, q) ↦ rw (p, q, preview_by_rule, due_dates_by_rule) refl
              | inr (t, q) ↦ rw (p, q, preview_by_rule, due_dates_by_rule) refl
            ]
    ]

-- The preview shows just the due dates that a ticket of that priority would be given, had it been
-- created at that instant: with and without a policy or a rule, and in the error as well.
pub simulate-compute_due_dates_for_new_ticket :
    (env : Env) (organization_id : ℕ) (priority : TicketPriority) (from : ℕ) (db : Db)
    → previewed (simulate env organization_id priority from db)
      ≡ computed (compute_due_dates_for_new_ticket env organization_id priority from db)
unfolding simulate compute_due_dates_for_new_ticket
simulate-compute_due_dates_for_new_ticket env organization_id priority from db =
    elim (Option-cases (default_policy organization_id db.policies)) [
      | inl p ↦ rw (p, simulate, compute_due_dates_for_new_ticket) refl
      | inr (policy, p) ↦ elim (Option-cases (rule_for priority policy.rules)) [
        | inl r ↦ rw (p, r, simulate, compute_due_dates_for_new_ticket) refl
        | inr (rule, r) ↦
            rw (p, r, simulate, compute_due_dates_for_new_ticket) (by_rule env policy from rule)
      ]
    ]
