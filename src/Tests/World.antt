-- ===== src/Tests/World.antt =====
-- A small installation: one environment, one resource with an incident, a rule, two actions.
use ops_pilot_ai.Base.{ℕ, none, some, [], ◌∷◌, true, false, pos, ◌+◌}
use ops_pilot_ai.Domain.Incidents.{detected, high}
use ops_pilot_ai.Domain.Policies.{allow, deny, l2}
use ops_pilot_ai.Domain.Plans.{PlanStepRisk}
use ops_pilot_ai.Domain.Actions.{ActionRequestStatus}
use ops_pilot_ai.Domain.Security.{of_name}
use ops_pilot_ai.Storage.Rows.{
  ResourceRecord, IncidentRecord, PolicyRuleRecord, PolicyDecisionRecord, matched,
  ActionRequestRecord, ResourceLockRecord,
}
use ops_pilot_ai.Storage.Database.{Db, empty_db}
use ops_pilot_ai.Policies.Rules.{Query}

abbrev pub incident : IncidentRecord
incident = record {
  id = 100;
  title = "disk full";
  status = detected;
  severity = high;
  resource_id = 10;
  owner = none;
  version = 1;
  event_cursor = 0;
  trace_id = 101;
  autonomy_level = "L1";
  replan_count = 0;
  tool_budget_used = 0;
  tool_budget_limit = 30;
  observability_runner_id = none;
  observability_lost_at = none;
  updated_at = 0;
}

-- Mondays from 01:00 to 02:00, twice per incident.
abbrev pub rule : PolicyRuleRecord
rule = record {
  id = 20;
  environment_id = 1;
  name = "restart";
  description = none;
  priority = pos 5;
  enabled = true;
  effect = allow;
  autonomy_levels = [];
  risk_levels = "low" ∷ [];
  capabilities = "container.restart" ∷ [];
  resource_ids = 10 ∷ [];
  approval_required = false;
  maintenance_days = 0 ∷ [];
  maintenance_start_minute = some 60;
  maintenance_end_minute = some 120;
  max_executions_per_incident = some 2;
  version = 3;
  created_at = 0;
  updated_at = 0;
}

-- A rule of lower priority that denies everything.
abbrev pub fallback : PolicyRuleRecord
fallback = record rule {
  id = 21;
  priority = pos 1;
  effect = deny;
  risk_levels = [];
  capabilities = [];
  resource_ids = [];
  maintenance_days = [];
  maintenance_start_minute = none;
  maintenance_end_minute = none;
  max_executions_per_incident = none;
}

abbrev pub query : Query
query = record {
  resource_id = 10;
  capability = "container.restart";
  autonomy_level = l2;
  risk = PlanStepRisk.low;
}

-- The fifth day, a Monday, at 01:30.
abbrev pub monday : ℕ
monday = 351_000_000_000

abbrev pub decision : PolicyDecisionRecord
decision = record {
  id = 30;
  evaluated_at = 0;
  evaluated_by = of_name "system";
  environment_id = 1;
  incident_id = 100;
  resource_id = 10;
  capability = "container.restart";
  autonomy_level = l2;
  risk = PlanStepRisk.low;
  allowed = true;
  approval_required = false;
  matched_rule_id = some 20;
  matched_rule_version = some 3;
  effect = some allow;
  reason = matched allow "restart" (pos 5);
}

abbrev pub action : ActionRequestRecord
action = record {
  id = 40;
  policy_decision_id = 30;
  approval_id = none;
  environment_id = 1;
  incident_id = 100;
  resource_id = 10;
  capability = "container.restart";
  status = ActionRequestStatus.ready;
  parameters = [];
  verification_criteria = [];
  rollback_capability = none;
  idempotency_key = "k";
  request_fingerprint = 7;
  created_by = of_name "system";
  cancelled_by = none;
  cancellation_reason = none;
  version = 1;
  updated_at = 0;
}

-- The lease of another action, which ends a second after `monday`.
abbrev pub other_lock : ResourceLockRecord
other_lock = record {
  id = 50;
  environment_id = 1;
  resource_id = 10;
  action_request_id = 41;
  incident_id = 100;
  fencing_token = 3;
  acquired_at = 0;
  renewed_at = 0;
  expires_at = monday + 1_000_000;
  released_at = none;
  released_by = none;
  reconciliation_required = false;
  updated_at = 0;
}

abbrev pub own_lock : ResourceLockRecord
own_lock = record other_lock { action_request_id = 40 }

abbrev pub web : ResourceRecord
web = record {
  id = 10;
  environment_id = 1;
  name = "web";
  kind = "container";
  criticality = "medium";
  version = 1;
  attributes = [];
}

abbrev pub db : Db
db = record empty_db {
  environments = record { id = 1; name = "prod"; slug = "prod"; description = none } ∷ [];
  resources = web ∷ [];
  incidents = incident ∷ [];
  policy_rules = fallback ∷ rule ∷ [];
  policy_decisions = decision ∷ [];
  actions = action ∷ [];
  next_id = 200;
  next_sequence = 1;
}

-- The same with a lock row on the resource.
abbrev pub db_with : ResourceLockRecord → Db
db_with l = record db { locks = l ∷ [] }
