-- ===== src/Policies/Decisions.antt =====
-- What `_decide` of backend/app/services/policies.py grants, and when.
use ops_pilot_ai.Base.{
  ℕ, ◌<◌, true, false, Option, some, List, [], ◌∷◌, ◌++◌, ◌≡◌, refl, ◌↔◌, arith, All, Bool-cases,
  inl, inr, ap, ◌==◌, ◌⊎◌,
}
use ops_pilot_ai.Domain.Policies.{policy_effect_eq, allow}
use ops_pilot_ai.Storage.Rows.{PolicyRuleRecord}
use ops_pilot_ai.Policies.Rules.{
  Query, PolicyDecision, matches, inside_maintenance_window, decide_by, decide, denied_by_default,
}

-- The executions stay below the limit of the rule, where both are known.
abbrev pub HasCapacity : Option ℕ → Option ℕ → Type 0
HasCapacity (some limit) (some consumed) = consumed < limit
HasCapacity _ _ = Unit

-- What a rule must satisfy to allow a query at an instant.
pub record Grants (rule : PolicyRuleRecord) (t : ℕ) (consumed : Option ℕ) : Type 0 where
  pub effect : rule.effect ≡ allow
  pub in_window : inside_maintenance_window rule t ≡ true
  pub capacity : HasCapacity rule.max_executions_per_incident consumed

-- The rule matches, and no rule before it does.
pub record IsFirst (rules : List PolicyRuleRecord) (q : Query) (rule : PolicyRuleRecord)
    : Type 0 where
  pub skipped : List PolicyRuleRecord
  pub later : List PolicyRuleRecord
  pub split : rules ≡ skipped ++ (rule ∷ later)
  pub unmatched : All (λ r. matches r q ≡ false) skipped
  pub matched : matches rule q ≡ true

module _ (rule : PolicyRuleRecord) (t : ℕ) (consumed : Option ℕ) where
  decide_by_tests :
      (decide_by rule t consumed).allowed ≡ true
      → ((rule.effect == allow) ≡ true)
        × (inside_maintenance_window rule t ≡ true)
        × HasCapacity rule.max_executions_per_incident consumed
  unfolding decide_by
  decide_by_tests h = ground arith

  decide_by_allows :
      (rule.effect == allow) ≡ true
      → inside_maintenance_window rule t ≡ true
      → HasCapacity rule.max_executions_per_incident consumed
      → (decide_by rule t consumed).allowed ≡ true
  unfolding decide_by
  decide_by_allows e w k = ground arith

  pub decide_by-Grants : (decide_by rule t consumed).allowed ≡ true ↔ Grants rule t consumed
  decide_by-Grants = (
    λ h.
        let (e, w, k) = decide_by_tests h in
        record { effect = (policy_effect_eq.equals_iff _ _).0 e; in_window = w; capacity = k },
    λ g. decide_by_allows ((policy_effect_eq.equals_iff _ _).1 g.effect) g.in_window g.capacity,
  )

module _ (q : Query) (t : ℕ) (consumed : Option ℕ) where
  -- Either the first rule that matches decides, or none matches and the default denies.
  pub decide-cases :
      (rules : List PolicyRuleRecord)
      → (All (λ r. matches r q ≡ false) rules × (decide rules q t consumed ≡ denied_by_default))
        ⊎ ((rule : PolicyRuleRecord) × IsFirst rules q rule
            × (decide rules q t consumed ≡ decide_by rule t consumed))
  unfolding decide
  decide-cases [] = inl (tt, refl)
  decide-cases (r ∷ rules) = elim (Bool-cases (matches r q)) [
    | inl m ↦ inr (
      r,
      record { skipped = []; later = rules; split = refl; unmatched = tt; matched = m },
      rw m refl,
    )
    | inr m ↦ elim (decide-cases rules) [
      | inl (u, e) ↦ inl ((m, u), rw m e)
      | inr (rule, f, e) ↦ inr (
        rule,
        record {
          skipped = r ∷ f.skipped;
          later = f.later;
          split = ap (λ (l : List PolicyRuleRecord). r ∷ l) f.split;
          unmatched = (m, f.unmatched);
          matched = f.matched;
        },
        rw m e,
      )
    ]
  ]

  first_decides :
      (skipped later : List PolicyRuleRecord) (rule : PolicyRuleRecord)
      → All (λ r. matches r q ≡ false) skipped
      → matches rule q ≡ true
      → decide (skipped ++ (rule ∷ later)) q t consumed ≡ decide_by rule t consumed
  unfolding decide
  first_decides [] later rule u m = rw m refl
  first_decides (r ∷ skipped) later rule u m = rw u.0 (first_decides skipped later rule u.1 m)

  -- A query is allowed exactly when the first rule that matches it is an ALLOW rule whose
  -- maintenance window is open and whose executions stay below its limit; without a match it is
  -- denied.
  pub decide-allowed_iff :
      (rules : List PolicyRuleRecord)
      → ((decide rules q t consumed).allowed ≡ true)
        ↔ ((rule : PolicyRuleRecord) × IsFirst rules q rule × Grants rule t consumed)
  decide-allowed_iff rules = (
    λ h. elim (decide-cases rules) [
      | inl (u, e) ↦ absurd (cc (ap (λ (d : PolicyDecision). d.allowed) e))
      | inr (rule, f, e) ↦ (
        rule,
        f,
        (decide_by-Grants rule t consumed).0 (rw (ap (λ (d : PolicyDecision). d.allowed) e) at h),
      )
    ],
    λ (rule, f, g).
        rw (f.split, first_decides f.skipped f.later rule f.unmatched f.matched)
          ((decide_by-Grants rule t consumed).1 g),
  )

  -- An approval is asked for only together with a permission.
  approval_needs_permission :
      (rules : List PolicyRuleRecord)
      → (decide rules q t consumed).approval_required ≡ true
      → (decide rules q t consumed).allowed ≡ true
  unfolding decide_by
  approval_needs_permission rules h = elim (decide-cases rules) [
    | inl (u, e) ↦ cc (ap (λ (d : PolicyDecision). d.approval_required) e)
    | inr (rule, f, e) ↦ ground (arith, e)
  ]
