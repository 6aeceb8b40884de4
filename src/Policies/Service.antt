-- ===== src/Policies/Service.antt =====
-- backend/app/services/policies.py: the calls of `PolicyService` that decide, over the database.
-- A call takes the instants that it reads from the clock as arguments, in the order of the reads.
use ops_pilot_ai.Base.{
  ℕ, Bool, true, false, not, ◌&&◌, Option, none, some, [], ◌∷◌, ◌++◌, nat_eq, ◌==◌, option_beq,
  application,
}
use ops_pilot_ai.Storage.Rows.{
  PolicyRuleRecord, PolicyDecisionRecord, IncidentRecord, ResourceRecord,
}
use ops_pilot_ai.Storage.Database.{Tx, pure, gets, or_raise, raise_if, modify, fresh, ◌>>=◌, ◌>>◌}
use ops_pilot_ai.Storage.Database.Scope.{Context, actor_or_system}
use ops_pilot_ai.Storage.Repositories.{
  get_environment, get_resource, get_incident, get_policy, list_for_environment,
  count_actions_for_incident_rule,
}
use ops_pilot_ai.Policies.Rules.{PolicyDecision, Query, decide}

abbrev pub lies_in : ℕ → Option ResourceRecord → Bool
lies_in environment_id none = false
lies_in environment_id (some r) = r.environment_id == environment_id

-- `_validate_target`
unfoldable pub validate_target : Context → ℕ → ℕ → Tx (Unit {0})
validate_target c environment_id resource_id = do
  environment ← gets (get_environment c environment_id)
  or_raise environment (application "ENVIRONMENT_NOT_FOUND" 404)
  resource ← gets (get_resource c resource_id)
  raise_if (not (lies_in environment_id resource)) (application "RESOURCE_NOT_FOUND" 404)

-- `dry_run`
unfoldable pub dry_run : Context → ℕ → Query → ℕ → Tx PolicyDecision
dry_run c environment_id q now = do
  validate_target c environment_id q.resource_id
  rules ← gets (list_for_environment c environment_id)
  pure (decide rules q now none)

abbrev pub query_of : PolicyDecisionRecord → Query
query_of s = record {
  resource_id = s.resource_id;
  capability = s.capability;
  autonomy_level = s.autonomy_level;
  risk = s.risk;
}

-- `revalidate_snapshot`
unfoldable pub revalidate_snapshot : Context → PolicyDecisionRecord → ℕ → Tx PolicyDecision
revalidate_snapshot c snapshot now = do
  validate_target c snapshot.environment_id snapshot.resource_id
  rules ← gets (list_for_environment c snapshot.environment_id)
  pure (decide rules (query_of snapshot) now none)

-- `rule is None or not rule.enabled or rule.version != version`, negated
abbrev pub is_unchanged : Option ℕ → Option PolicyRuleRecord → Bool
is_unchanged version none = false
is_unchanged version (some r) = r.enabled && option_beq (some r.version) version

abbrev pub rule_changed : Bool → Option PolicyRuleRecord → Tx PolicyRuleRecord
rule_changed true rule = or_raise rule (application "POLICY_RULE_CHANGED" 409)
rule_changed false rule = or_raise none (application "POLICY_RULE_CHANGED" 409)

-- The rule that `matched_rule_id` names, locked, while it is enabled and at the version `version`.
unfoldable pub locked_rule : Context → ℕ → Option ℕ → Tx PolicyRuleRecord
locked_rule c rule_id version = do
  rule ← gets (get_policy c rule_id)
  rule_changed (is_unchanged version rule) rule

abbrev pub decide_locked : Context → ℕ → Query → ℕ → PolicyDecision → Option ℕ → Tx PolicyDecision
decide_locked c incident_id q now decision none = pure decision
decide_locked c incident_id q now decision (some rule_id) = do
  rule ← locked_rule c rule_id decision.matched_rule_version
  consumed ← gets (count_actions_for_incident_rule incident_id rule.id)
  pure (decide (rule ∷ []) q now (some consumed))

abbrev pub belongs_to : ℕ → Option IncidentRecord → Bool
belongs_to resource_id none = false
belongs_to resource_id (some i) = i.resource_id == resource_id

-- `PolicyRepository.create_decision`
unfoldable pub create_decision :
    Context → ℕ → ℕ → Query → ℕ → PolicyDecision → Tx PolicyDecisionRecord
create_decision c environment_id incident_id q now d = do
  i ← fresh
  let row : PolicyDecisionRecord = record {
    id = i;
    evaluated_at = now;
    evaluated_by = actor_or_system c;
    environment_id = environment_id;
    incident_id = incident_id;
    resource_id = q.resource_id;
    capability = q.capability;
    autonomy_level = q.autonomy_level;
    risk = q.risk;
    allowed = d.allowed;
    approval_required = d.approval_required;
    matched_rule_id = d.matched_rule_id;
    matched_rule_version = d.matched_rule_version;
    effect = d.effect;
    reason = d.reason;
  }
  modify (λ db. record db { policy_decisions = db.policy_decisions ++ row ∷ [] })
  pure row

-- `evaluate`; its result is the decision and the stored snapshot.
unfoldable pub evaluate : Context → ℕ → ℕ → Query → ℕ → Tx (PolicyDecision × PolicyDecisionRecord)
evaluate c environment_id incident_id q now = do
  validate_target c environment_id q.resource_id
  incident ← gets (get_incident c incident_id)
  raise_if (not (belongs_to q.resource_id incident))
      (application "POLICY_INCIDENT_SCOPE_INVALID" 422)
  rules ← gets (list_for_environment c environment_id)
  let first = decide rules q now none
  decision ← decide_locked c incident_id q now first first.matched_rule_id
  snapshot ← create_decision c environment_id incident_id q now decision
  pure (decision, snapshot)

abbrev pub authorize_by : Context → PolicyDecisionRecord → ℕ → Option ℕ → Tx PolicyDecision
authorize_by c snapshot now none = pure (decide [] (query_of snapshot) now none)
authorize_by c snapshot now (some rule_id) = do
  rule ← locked_rule c rule_id snapshot.matched_rule_version
  consumed ← gets (count_actions_for_incident_rule snapshot.incident_id rule.id)
  pure (decide (rule ∷ []) (query_of snapshot) now (some consumed))

-- `authorize_action_creation`
unfoldable pub authorize_action_creation : Context → PolicyDecisionRecord → ℕ → Tx PolicyDecision
authorize_action_creation c snapshot now = do
  validate_target c snapshot.environment_id snapshot.resource_id
  authorize_by c snapshot now snapshot.matched_rule_id
