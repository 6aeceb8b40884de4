-- ===== src/Policies/Revocation.antt =====
-- `PolicyService.update_rule` against the decisions that rest on the rule.
use ops_pilot_ai.Base.{ℕ, ◌+◌, some, ◌≡◌, ◌≢◌, ◌∙◌, ap, arith, ok}
use ops_pilot_ai.Storage.Tables
use ops_pilot_ai.Storage.Rows.{PolicyRuleRecord, PolicyDecisionRecord}
use ops_pilot_ai.Storage.Database.{Db, >>=-eq-ok}
use ops_pilot_ai.Storage.Database.Scope.{Context}
use ops_pilot_ai.Storage.Repositories.{get_policy}
use ops_pilot_ai.Policies.Rules.{PolicyDecision}
use ops_pilot_ai.Policies.Service.{locked_rule, authorize_by, authorize_action_creation}
use ops_pilot_ai.Policies.Capacity.{locked_rule_result, after_target}
use ops_pilot_ai.Policies.Management.{RuleInput, update_rule}
use ops_pilot_ai.Policies.Scoping.{IsUpdated, update_rule-IsUpdated}

stored_rule :
    (c : Context) (i : ℕ) (db : Db) (rule : PolicyRuleRecord)
    → get_policy c i db ≡ some rule
    → (Tables.get (λ (r : PolicyRuleRecord). r.id) i db.policy_rules ≡ some rule) × (rule.id ≡ i)
unfolding get_policy
stored_rule c i db rule h =
    ground (arith, Tables.get_key (λ (x : PolicyRuleRecord). x.id) i db.policy_rules rule)

-- No principal finds the rule at the version that it had before.
next_version :
    (c c' : Context) (i v : ℕ) (r : RuleInput) (now : ℕ) (db db' : Db) (row rule : PolicyRuleRecord)
    → IsUpdated c i v r now db db' row
    → get_policy c' i db' ≡ some rule
    → rule.version ≡ v + 1
next_version c c' i v r now db db' row rule k g =
    let (t, e) = stored_rule c i db k.rule k.stored in
    let own : row.id ≡ i = ap (λ (x : PolicyRuleRecord). x.id) k.written ∙ e in
    let w = Tables.get-save (λ (x : PolicyRuleRecord). x.id) row i db.policy_rules in
    let rules = ap (λ (x : Db). x.policy_rules) k.rules in
    let after : Tables.get (λ (x : PolicyRuleRecord). x.id) i db'.policy_rules ≡ some row =
      ground (arith, rules, own, t, w) in
    let (f, _) = stored_rule c' i db' rule g in
    let same : rule ≡ row = ground (arith, f, after) in
    let a = ap (λ (x : PolicyRuleRecord). x.version) same in
    let b = ap (λ (x : PolicyRuleRecord). x.version) k.written in let n = k.current in omega arith

-- Once `update_rule` has changed a rule, a decision that the earlier version of the rule had matched
-- authorizes no action any more, whoever asks, in the database that the change left.
pub update_revokes :
    (c c' : Context) (i v : ℕ) (r : RuleInput) (now t : ℕ) (db db' : Db) (row : PolicyRuleRecord)
    (s : PolicyDecisionRecord) (x : PolicyDecision × Db)
    → update_rule c i v r now db ≡ ok (row, db')
    → s.matched_rule_id ≡ some i
    → s.matched_rule_version ≡ some v
    → authorize_action_creation c' s t db' ≢ ok x
update_revokes c c' i v r now t db db' row s (d, d') h m n f =
    let k = update_rule-IsUpdated c i v r now db db' row h in
    let g : authorize_by c' s t (some i) db' ≡ ok (d, d') =
      rw m at (after_target c' s t db' d' d f) in
    let (rule, db₁, e, _) = >>=-eq-ok (locked_rule c' i s.matched_rule_version) _ g in
    let (w, _, u, _) = locked_rule_result c' i s.matched_rule_version db' db₁ rule e in
    let z = next_version c c' i v r now db db' row rule k w in absurd (ground (arith, u, n, z))
