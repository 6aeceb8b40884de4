-- ===== src/Tests/Actions.antt =====
-- An action that needs an approval: created, sent again, and cancelled while it holds a lock.
use ops_pilot_ai.Base.{
  ℕ, ◌+◌, String, Bool, true, false, none, some, List, [], ◌∷◌, ◌≡◌, ◌≢◌, ◌⊎◌, refl, arith, Result,
  ok, err, select, find, any, is_blank, is_space,
}
use ops_pilot_ai.Domain.Actions.{ActionRequestStatus-discrete, status_value}
use ops_pilot_ai.Domain.Approvals.{ApprovalStatus-discrete, approved}
use ops_pilot_ai.Domain.Plans.{risk_value}
use ops_pilot_ai.Domain.Policies.{autonomy_value, PolicyEffect-discrete}
use ops_pilot_ai.Domain.Security.{of_name}
use ops_pilot_ai.Storage.Tables
use ops_pilot_ai.Storage.Values.{get_item, same_value, same_mapping}
use ops_pilot_ai.Storage.Rows.{
  Value, text, ApprovalRecord, PolicyDecisionRecord, ActionRequestRecord,
}
use ops_pilot_ai.Storage.Database.{Db}
use ops_pilot_ai.Storage.Database.Scope.{in_scope}
use ops_pilot_ai.Storage.Repositories.{
  get_environment, get_resource, get_incident, get_decision, get_approval, get_action, get_policy,
  get_lock_for_action, get_by_idempotency_key, get_by_policy_decision, get_by_approval, counts_for,
  count_actions_for_incident_rule,
}
use ops_pilot_ai.Events.{record_event}
use ops_pilot_ai.Policies.Rules.{decide, decide_by, matches, inside_maintenance_window}
use ops_pilot_ai.Policies.Service.{validate_target, locked_rule, authorize_action_creation}
use ops_pilot_ai.Locks.{release_for_action, acquire, renew, release}
use ops_pilot_ai.Actions.{
  ActionInput, FingerprintPayload, fingerprint, action_row, validate_approval, violates_unique,
  insert_action, insert_or_raced, replay_or_insert, create, record_cancelled, cancel,
}
use ops_pilot_ai.Actions.Capabilities.{
  action_capability_definition, only_key, valid_value, validate_capability_parameters,
  validate_rollback_capability,
}
use ops_pilot_ai.Actions.Creation.{IsReplayed, IsCreated, create-IsCreated}
use ops_pilot_ai.Actions.Limits.{IsWithinLimits, create-IsWithinLimits}
use ops_pilot_ai.Actions.Replays.{create_twice}
use ops_pilot_ai.Actions.Cancellation.{IsCancelled, cancel-IsCancelled}
use ops_pilot_ai.Actions.Locking.{cancel_ends_locking}
use ops_pilot_ai.Tests.World.{rule, decision, own_lock, monday, db, db_with}

abbrev pub parameters : List (String × Value)
parameters = ("containerId", text "web") ∷ []

abbrev pub approval : ApprovalRecord
approval = record {
  id = 60;
  policy_decision_id = 30;
  environment_id = 1;
  incident_id = 100;
  resource_id = 10;
  capability = "container.restart";
  status = approved;
  requested_by = of_name "system";
  decided_by = some (of_name "lead");
  expires_at = monday + 1_000_000;
  decided_at = some 0;
  decision_comment = none;
  parameters = parameters;
  editable_parameter_keys = [];
  version = 2;
  updated_at = 0;
}

-- The rule and the decision ask for an approval, and nothing was created from it yet.
abbrev pub guarded : Db
guarded = record db {
  policy_rules = record rule { approval_required = true } ∷ [];
  policy_decisions = record decision { approval_required = true } ∷ [];
  approvals = approval ∷ [];
  actions = [];
}

abbrev input : ActionInput
input = record {
  policy_decision_id = 30;
  approval_id = some 60;
  parameters = parameters;
  verification_criteria = "healthy" ∷ [];
  rollback_capability = none;
  idempotency_key = "k";
}

abbrev pub digest : FingerprintPayload → ℕ
digest p = p.snapshot_id

abbrev result_of : Result ((ActionRequestRecord × Bool) × Db) → (ActionRequestRecord × Bool) × Db
result_of (ok r) = r
result_of (err e) = ((action_row none decision input 0 0 0, true), db)

abbrev made : (ActionRequestRecord × Bool) × Db
made = result_of (create none digest input monday monday monday guarded)

create_returns :
    create none digest input monday monday monday guarded ≡ ok ((made.0.0, false), made.1)
unfolding create get_decision in_scope Tables.get validate_capability_parameters
    validate_rollback_capability action_capability_definition only_key valid_value is_blank is_space
    get_item find get_by_idempotency_key replay_or_insert get_by_policy_decision validate_approval
    get_approval ApprovalStatus-discrete same_mapping same_value get_by_approval
    authorize_action_creation validate_target get_environment get_resource locked_rule get_policy
    count_actions_for_incident_rule counts_for select decide decide_by matches
    inside_maintenance_window risk_value autonomy_value PolicyEffect-discrete get_incident
    violates_unique any insert_or_raced insert_action record_event Tables.save status_value
create_returns = refl

creation_example :
    (s : PolicyDecisionRecord) × ((IsReplayed none input
          (fingerprint digest input)
          guarded
          made.1
          s
          made.0.0
        × (false ≡ true))
      ⊎ (IsCreated none input
            (fingerprint digest input)
            monday
            monday
            monday
            guarded
            made.1
            s
            made.0.0
          × (false ≡ false)))
creation_example =
    create-IsCreated none digest input monday monday monday guarded made.1 made.0.0 false
      create_returns

none_counted : IsWithinLimits guarded
unfolding count_actions_for_incident_rule select
none_counted i k n r h m = omega arith

limits_example : IsWithinLimits made.1
limits_example =
    create-IsWithinLimits none digest input monday monday monday guarded made.1 made.0.0 false
      none_counted create_returns

-- The request comes again an hour after the window was open.
abbrev evening : ℕ
evening = monday + 3_600_000_000

twice_example :
    create none digest input evening evening evening made.1 ≡ ok ((made.0.0, true), made.1)
twice_example =
    create_twice none digest input monday monday monday evening evening evening guarded made.1
      made.0.0 false create_returns

abbrev action_of : Result (ActionRequestRecord × Db) → ActionRequestRecord × Db
action_of (ok r) = r
action_of (err e) = (made.0.0, db)

abbrev dropped : ActionRequestRecord × Db
dropped = action_of (cancel none 40 1 "wrong target" monday (db_with own_lock))

cancel_returns :
    cancel none 40 1 "wrong target" monday (db_with own_lock) ≡ ok (dropped.0, dropped.1)
unfolding cancel get_action in_scope Tables.get ActionRequestStatus-discrete get_incident
    Tables.save release_for_action get_lock_for_action find record_cancelled record_event
cancel_returns = refl

cancel_example : IsCancelled none 40 1 "wrong target" monday (db_with own_lock) dropped.1 dropped.0
cancel_example =
    cancel-IsCancelled none 40 1 "wrong target" monday (db_with own_lock) dropped.1 dropped.0
      cancel_returns

locking_example :
    (acquire none 1 40 true monday monday monday dropped.1 ≢ ok ((own_lock, true), db))
    × (renew none 1 40 3 monday monday dropped.1 ≢ ok (own_lock, db))
    × (release none 40 3 monday monday dropped.1 ≢ ok (own_lock, db))
locking_example =
    cancel_ends_locking none none 40 1 "wrong target" monday (db_with own_lock) dropped.1 dropped.0
      1 true monday monday monday 3 monday ((own_lock, true), db) (own_lock, db) cancel_returns
