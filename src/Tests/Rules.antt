-- ===== src/Tests/Rules.antt =====
-- A rule created and updated, and a decision that its earlier version matched.
use ops_pilot_ai.Base.{true, false, none, some, [], ◌∷◌, ◌≡◌, ◌≢◌, refl, Result, ok, err, any, pos}
use ops_pilot_ai.Domain.Policies.{allow}
use ops_pilot_ai.Storage.Tables
use ops_pilot_ai.Storage.Rows.{PolicyRuleRecord}
use ops_pilot_ai.Storage.Database.{Db}
use ops_pilot_ai.Storage.Database.Scope.{in_scope}
use ops_pilot_ai.Storage.Repositories.{get_resource, get_policy}
use ops_pilot_ai.Policies.Service.{authorize_action_creation}
use ops_pilot_ai.Policies.Management.{
  RuleInput, validate_resource_scope, name_taken, save_rule, update_rule,
}
use ops_pilot_ai.Policies.Scoping.{IsScoped, updated, Changed-IsScoped}
use ops_pilot_ai.Policies.Revocation.{update_revokes}
use ops_pilot_ai.Policies.Rules.{denied_by_default}
use ops_pilot_ai.Tests.World.{rule, decision, monday, web, db}

-- The rule for restarts, without its window.
abbrev input : RuleInput
input = record {
  environment_id = 1;
  name = "restart";
  description = none;
  priority = pos 5;
  enabled = true;
  effect = allow;
  autonomy_levels = [];
  risk_levels = "low" ∷ [];
  capabilities = "container.restart" ∷ [];
  resource_ids = 10 ∷ [];
  approval_required = false;
  maintenance_days = [];
  maintenance_start_minute = none;
  maintenance_end_minute = none;
  max_executions_per_incident = some 2;
}

abbrev one_rule : Db
one_rule = record db { policy_rules = rule ∷ [] }

abbrev row_of : Result (PolicyRuleRecord × Db) → PolicyRuleRecord × Db
row_of (ok r) = r
row_of (err e) = (rule, db)

abbrev changed : PolicyRuleRecord × Db
changed = row_of (update_rule none 20 3 input monday one_rule)

update_returns : update_rule none 20 3 input monday one_rule ≡ ok (changed.0, changed.1)
unfolding update_rule get_policy in_scope Tables.get validate_resource_scope get_resource save_rule
    name_taken any Tables.save
update_returns = refl

one_rule-IsScoped : IsScoped one_rule
unfolding Tables.get
one_rule-IsScoped = (((web, refl, refl), tt), tt)

stays_example : IsScoped changed.1
stays_example =
    Changed-IsScoped one_rule changed.1 one_rule-IsScoped
      (updated none 20 3 input monday changed.0 update_returns)

revokes_example :
    authorize_action_creation none decision monday changed.1 ≢ ok (denied_by_default, db)
revokes_example =
    update_revokes none none 20 3 input monday monday one_rule changed.1 changed.0 decision
      (denied_by_default, db) update_returns refl refl
