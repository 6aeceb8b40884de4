-- ===== src/Policies/Management.antt =====
-- backend/app/services/policies.py: `PolicyService.create_rule` and `PolicyService.update_rule`.
use ops_pilot_ai.Base.{
  ℕ, ◌+◌, String, Bool, not, ◌&&◌, Option, List, [], ◌∷◌, ◌++◌, nat_eq, string_eq, ◌==◌,
  application, any, ℤ,
}
use ops_pilot_ai.Domain.Policies.{PolicyEffect}
use ops_pilot_ai.Storage.Tables
use ops_pilot_ai.Storage.Rows.{PolicyRuleRecord}
use ops_pilot_ai.Storage.Database.{
  Db, Tx, pure, gets, or_raise, raise_if, modify, fresh, ◌>>=◌, ◌>>◌,
}
use ops_pilot_ai.Storage.Database.Scope.{Context}
use ops_pilot_ai.Storage.Repositories.{get_environment, get_resource, get_policy}
use ops_pilot_ai.Policies.Service.{lies_in}

-- The arguments that `create_rule` and `update_rule` share.
pub record RuleInput : Type 0 where
  pub environment_id : ℕ
  pub name : String
  pub description : Option String
  pub priority : ℤ
  pub enabled : Bool
  pub effect : PolicyEffect
  pub autonomy_levels : List String
  pub risk_levels : List String
  pub capabilities : List String
  pub resource_ids : List ℕ
  pub approval_required : Bool
  pub maintenance_days : List ℕ
  pub maintenance_start_minute : Option ℕ
  pub maintenance_end_minute : Option ℕ
  pub max_executions_per_incident : Option ℕ

-- `_validate_resource_scope`
unfoldable pub validate_resource_scope : Context → ℕ → List ℕ → Tx (Unit {0})
validate_resource_scope c environment_id [] = pure tt
validate_resource_scope c environment_id (i ∷ resource_ids) = do
  resource ← gets (get_resource c i)
  raise_if (not (lies_in environment_id resource)) (application "POLICY_RESOURCE_SCOPE_INVALID" 422)
  validate_resource_scope c environment_id resource_ids

-- The values that `create_rule` gives to the new row.
abbrev pub rule_row : RuleInput → ℕ → ℕ → PolicyRuleRecord
rule_row r now i = record {
  id = i;
  environment_id = r.environment_id;
  name = r.name;
  description = r.description;
  priority = r.priority;
  enabled = r.enabled;
  effect = r.effect;
  autonomy_levels = r.autonomy_levels;
  risk_levels = r.risk_levels;
  capabilities = r.capabilities;
  resource_ids = r.resource_ids;
  approval_required = r.approval_required;
  maintenance_days = r.maintenance_days;
  maintenance_start_minute = r.maintenance_start_minute;
  maintenance_end_minute = r.maintenance_end_minute;
  max_executions_per_incident = r.max_executions_per_incident;
  version = 1;
  created_at = now;
  updated_at = now;
}

-- The unique constraint on the environment and the name, which does not know of scopes, for a row
-- with the identifier `own`.
unfoldable pub name_taken : ℕ → ℕ → String → Db → Bool
name_taken own environment_id name db =
    any
      (λ (r : PolicyRuleRecord).
        not (r.id == own) && r.environment_id == environment_id && r.name == name)
      db.policy_rules

-- `PolicyRepository.create`, where the constraint does not fail
unfoldable pub insert_rule : RuleInput → ℕ → Tx PolicyRuleRecord
insert_rule r now = do
  i ← fresh
  taken ← gets (name_taken i r.environment_id r.name)
  raise_if taken (application "POLICY_RULE_CONFLICT" 409)
  modify (λ db. record db { policy_rules = db.policy_rules ++ rule_row r now i ∷ [] })
  pure (rule_row r now i)

-- `create_rule`
unfoldable pub create_rule : Context → RuleInput → ℕ → Tx PolicyRuleRecord
create_rule c r now = do
  environment ← gets (get_environment c r.environment_id)
  or_raise environment (application "ENVIRONMENT_NOT_FOUND" 404)
  validate_resource_scope c r.environment_id r.resource_ids
  insert_rule r now

-- The row that `update_rule` leaves.
abbrev pub updated_rule : PolicyRuleRecord → RuleInput → ℕ → PolicyRuleRecord
updated_rule rule r now = record rule {
  name = r.name;
  description = r.description;
  priority = r.priority;
  enabled = r.enabled;
  effect = r.effect;
  autonomy_levels = r.autonomy_levels;
  risk_levels = r.risk_levels;
  capabilities = r.capabilities;
  resource_ids = r.resource_ids;
  approval_required = r.approval_required;
  maintenance_days = r.maintenance_days;
  maintenance_start_minute = r.maintenance_start_minute;
  maintenance_end_minute = r.maintenance_end_minute;
  max_executions_per_incident = r.max_executions_per_incident;
  version = rule.version + 1;
  updated_at = now;
}

-- The commit of the changes to a row of `policy_rules`, where the constraint does not fail
unfoldable pub save_rule : PolicyRuleRecord → Tx (Unit {0})
save_rule rule = do
  taken ← gets (name_taken rule.id rule.environment_id rule.name)
  raise_if taken (application "POLICY_RULE_CONFLICT" 409)
  modify (λ db. record db {
    policy_rules = Tables.save (λ (x : PolicyRuleRecord). x.id) rule db.policy_rules;
  })

-- `update_rule`
unfoldable pub update_rule : Context → ℕ → ℕ → RuleInput → ℕ → Tx PolicyRuleRecord
update_rule c policy_id expected_version r now = do
  found ← gets (get_policy c policy_id)
  rule ← or_raise found (application "POLICY_RULE_NOT_FOUND" 404)
  raise_if (not (rule.version == expected_version)) (application "POLICY_RULE_VERSION_CONFLICT" 409)
  raise_if (not (rule.environment_id == r.environment_id))
      (application "POLICY_ENVIRONMENT_IMMUTABLE" 422)
  validate_resource_scope c rule.environment_id r.resource_ids
  save_rule (updated_rule rule r now)
  pure (updated_rule rule r now)
