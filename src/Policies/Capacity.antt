-- ===== src/Policies/Capacity.antt =====
-- `PolicyService.authorize_action_creation`: what it checks again before an action is created.
use ops_pilot_ai.Base.{
  ℕ, true, Option, none, some, ◌∷◌, [], ◌≡◌, arith, ok, refl, inl, inr, Bool-cases,
}
use ops_pilot_ai.Storage.Tables
use ops_pilot_ai.Storage.Rows.{PolicyRuleRecord, PolicyDecisionRecord}
use ops_pilot_ai.Storage.Database.{Db, >>=-eq-ok}
use ops_pilot_ai.Storage.Database.Scope.{Context}
use ops_pilot_ai.Storage.Repositories.{get_policy, count_actions_for_incident_rule}
use ops_pilot_ai.Policies.Rules.{PolicyDecision, matches, decide}
use ops_pilot_ai.Policies.Service.{
  authorize_action_creation, authorize_by, validate_target, locked_rule, query_of,
}
use ops_pilot_ai.Policies.Decisions.{Grants, decide_by-Grants}

get_policy_id :
    (c : Context) (i : ℕ) (db : Db) (r : PolicyRuleRecord) → get_policy c i db ≡ some r → r.id ≡ i
unfolding get_policy
get_policy_id c i db r h =
    ground (arith, Tables.get_key (λ (x : PolicyRuleRecord). x.id) i db.policy_rules r)

-- What holds of the rule that a decision named when an action may be created under it.
pub record Authorized (c : Context) (s : PolicyDecisionRecord) (now : ℕ) (db : Db) : Type 0 where
  pub rule : PolicyRuleRecord
  pub named : s.matched_rule_id ≡ some rule.id
  pub stored : get_policy c rule.id db ≡ some rule
  pub enabled : rule.enabled ≡ true
  pub unchanged : s.matched_rule_version ≡ some rule.version
  pub matched : matches rule (query_of s) ≡ true
  pub grants : Grants rule now (some (count_actions_for_incident_rule s.incident_id rule.id db))

pub locked_rule_result :
    (c : Context) (i : ℕ) (v : Option ℕ) (db db' : Db) (r : PolicyRuleRecord)
    → locked_rule c i v db ≡ ok (r, db')
    → (get_policy c i db ≡ some r) × (r.enabled ≡ true) × (v ≡ some r.version) × (db' ≡ db)
unfolding locked_rule
locked_rule_result c i v db db' r h = ground arith

single_matches :
    (r : PolicyRuleRecord) (s : PolicyDecisionRecord) (now : ℕ) (k : Option ℕ)
    → (decide (r ∷ []) (query_of s) now k).allowed ≡ true
    → (matches r (query_of s) ≡ true) × Grants r now k
unfolding decide
single_matches r s now k h = elim (Bool-cases (matches r (query_of s))) [
  | inl m ↦ (m, (decide_by-Grants r now k).0 (rw m at h))
  | inr m ↦ cc (rw m at h)
]

pub after_target :
    (c : Context) (s : PolicyDecisionRecord) (now : ℕ) (db db' : Db) (d : PolicyDecision)
    → authorize_action_creation c s now db ≡ ok (d, db')
    → authorize_by c s now s.matched_rule_id db ≡ ok (d, db')
unfolding authorize_action_creation validate_target
after_target c s now db db' d h = ground arith

authorize_by-Authorized :
    (c : Context) (s : PolicyDecisionRecord) (now : ℕ) (db db' : Db) (d : PolicyDecision)
    (o : Option ℕ)
    → s.matched_rule_id ≡ o
    → authorize_by c s now o db ≡ ok (d, db')
    → d.allowed ≡ true
    → Authorized c s now db × (db' ≡ db)
unfolding decide
authorize_by-Authorized c s now db db' d none n h a = absurd (ground arith)
authorize_by-Authorized c s now db db' d (some i) n h a =
    let (r, db₁, e, f) = >>=-eq-ok (locked_rule c i s.matched_rule_version) _ h in
    let (g, on, v, same) = locked_rule_result c i s.matched_rule_version db db₁ r e in
    let j : r.id ≡ i = get_policy_id c i db r g in
    let k : Option ℕ = some (count_actions_for_incident_rule s.incident_id r.id db₁) in
    let (m, gr) = single_matches r s now k (ground (arith, f)) in
    (
      record {
        rule = r;
        named = rw j n;
        stored = rw j g;
        enabled = on;
        unchanged = v;
        matched = m;
        grants = rw same at gr;
      },
      ground (arith, f),
    )

-- A permission to create an action rests on the rule that the decision named: it is still stored,
-- enabled and at the version of the decision, it matches and allows in its window, and the actions
-- of the incident under it are fewer than its limit. The check changes nothing in the database.
pub authorize-Authorized :
    (c : Context) (s : PolicyDecisionRecord) (now : ℕ) (db db' : Db) (d : PolicyDecision)
    → authorize_action_creation c s now db ≡ ok (d, db')
    → d.allowed ≡ true
    → Authorized c s now db × (db' ≡ db)
authorize-Authorized c s now db db' d h a =
    authorize_by-Authorized c s now db db' d s.matched_rule_id refl
      (after_target c s now db db' d h) a
