-- ===== src/Tests/Approvals.antt =====
-- An approval that a proposal and a paused run wait for, approved by somebody else.
use ops_pilot_ai.Base.{
  true, none, some, [], ◌∷◌, ◌≡◌, ◌≢◌, refl, Result, ok, err, select, order_by, find, any, all,
  is_blank, is_space, str, spell, digit,
}
use ops_pilot_ai.Domain.Actions.{
  ActionProposalStatus, ActionProposalStatus-discrete, proposal_status_value, status_value,
}
use ops_pilot_ai.Domain.Approvals.{ApprovalStatus, ApprovalStatus-discrete, ApprovalDecision, value}
use ops_pilot_ai.Domain.Investigations
use ops_pilot_ai.Domain.Investigations.{
  InvestigationRunStatus, InvestigationRunStatus-discrete, InvestigationHitlSubjectType,
  InvestigationHitlSubjectType-discrete, InvestigationHitlWaitStatus,
  InvestigationHitlWaitStatus-discrete, subject_value, transition_investigation_run,
  allowed_transitions,
}
use ops_pilot_ai.Domain.Plans.{risk_value}
use ops_pilot_ai.Domain.Policies.{autonomy_value, PolicyEffect-discrete}
use ops_pilot_ai.Domain.Security.{user, operator}
use ops_pilot_ai.Storage.Tables
use ops_pilot_ai.Storage.Values.{get_item, same_value, same_mapping}
use ops_pilot_ai.Storage.Rows.{
  ApprovalRecord, ActionProposalRecord, InvestigationRunRecord, InvestigationHitlWaitRecord,
}
use ops_pilot_ai.Storage.Database.{Db}
use ops_pilot_ai.Storage.Database.Scope.{Context, in_scope, environment_scope}
use ops_pilot_ai.Storage.Repositories.{
  get_environment, get_resource, get_incident, get_decision, get_approval, get_policy,
  get_by_idempotency_key, get_by_policy_decision, get_by_approval, get_proposal_by_approval,
  get_run, get_waiting_hitl_for_subject, counts_for, count_actions_for_incident_rule,
  list_for_environment, earlier_rule,
}
use ops_pilot_ai.Events.{record_event, set_item}
use ops_pilot_ai.Policies.Rules
use ops_pilot_ai.Policies.Rules.{decide_by, matches, inside_maintenance_window}
use ops_pilot_ai.Policies.Service.{
  validate_target, locked_rule, authorize_action_creation, revalidate_snapshot,
}
use ops_pilot_ai.Actions
use ops_pilot_ai.Actions.{
  validate_approval, violates_unique, insert_action, insert_or_raced, replay_or_insert,
}
use ops_pilot_ai.Actions.Capabilities.{
  action_capability_definition, only_key, valid_value, validate_capability_parameters,
  validate_rollback_capability,
}
use ops_pilot_ai.Proposals.{proposal_event, finish_proposal, resolve_waiting, resolve_approval}
use ops_pilot_ai.Waits.{resolve_wait, resolve_subject}
use ops_pilot_ai.Approvals.{
  DecisionInput, Clock, resolve, settle, only_editable, merge, check_policy, decide_pending, decide,
}
use ops_pilot_ai.Approvals.Deciding.{IsDecided, decide-IsDecided, decided_once}
use ops_pilot_ai.Tests.World.{monday}
use ops_pilot_ai.Tests.Actions.{parameters, approval, guarded, digest}

abbrev lead : Context
lead = some record {
  id = none;
  name = "lead";
  kind = user;
  role = operator;
  environment_ids = [];
  unrestricted_environments = true;
}

abbrev asked : ApprovalRecord
asked = record approval {
  status = ApprovalStatus.pending;
  decided_by = none;
  decided_at = none;
  version = 1;
}

abbrev proposal : ActionProposalRecord
proposal = record {
  id = 70;
  run_id = 80;
  node_execution_id = "n1";
  plan_step_id = none;
  environment_id = 1;
  incident_id = 100;
  resource_id = 10;
  capability = "container.restart";
  parameters = parameters;
  verification_criteria = [];
  rollback_capability = none;
  risk = "low";
  status = ActionProposalStatus.awaiting_approval;
  policy_decision_id = some 30;
  approval_id = some 60;
  action_request_id = none;
  decision_reason = none;
  version = 1;
  updated_at = 0;
}

abbrev paused_run : InvestigationRunRecord
paused_run = record {
  id = 80;
  incident_id = 100;
  thread_id = 81;
  idempotency_key = "r";
  status = InvestigationRunStatus.paused;
  graph_version = "graph-v1";
  current_node = none;
  iteration_count = 0;
  max_iterations = 5;
  last_checkpoint_sequence = 0;
  started_at = none;
  completed_at = none;
  last_error_code = none;
  runtime_owner = none;
  runtime_lease_expires_at = none;
  runtime_attempt = 0;
  model_request_limit = 20;
  model_requests_used = 0;
  model_input_tokens_used = 0;
  model_output_tokens_used = 0;
  version = 4;
  updated_at = 0;
}

abbrev wait : InvestigationHitlWaitRecord
wait = record {
  id = 90;
  run_id = 80;
  incident_id = 100;
  checkpoint_id = 91;
  subject_type = InvestigationHitlSubjectType.approval;
  subject_id = 60;
  status = InvestigationHitlWaitStatus.waiting;
  outcome = none;
  resolved_at = none;
  resumed_at = none;
  version = 1;
  updated_at = 0;
}

abbrev waiting_db : Db
waiting_db = record guarded {
  approvals = asked ∷ [];
  action_proposals = proposal ∷ [];
  investigation_runs = paused_run ∷ [];
  hitl_waits = wait ∷ [];
}

abbrev yes_please : DecisionInput
yes_please = record {
  decision = ApprovalDecision.approve;
  expected_version = 1;
  comment = none;
  parameter_edits = [];
}

abbrev clock : Clock
clock = record { now = monday; check = monday; approval = monday; policy = monday; action = monday }

abbrev row_of : Result (ApprovalRecord × Db) → ApprovalRecord × Db
row_of (ok r) = r
row_of (err e) = (asked, guarded)

abbrev granted : ApprovalRecord × Db
granted = row_of (decide lead digest 60 yes_please clock waiting_db)

decide_returns : decide lead digest 60 yes_please clock waiting_db ≡ ok (granted.0, granted.1)
unfolding decide decide_pending settle resolve only_editable all merge set_item check_policy value
    get_approval ApprovalStatus-discrete revalidate_snapshot list_for_environment order_by
    earlier_rule resolve_approval resolve_waiting finish_proposal proposal_event
    get_proposal_by_approval ActionProposalStatus-discrete proposal_status_value str spell digit
    resolve_subject resolve_wait get_run get_waiting_hitl_for_subject
    InvestigationRunStatus-discrete InvestigationHitlSubjectType-discrete
    InvestigationHitlWaitStatus-discrete subject_value Investigations.value Actions.create
    get_decision in_scope environment_scope Tables.get validate_capability_parameters
    validate_rollback_capability action_capability_definition only_key valid_value is_blank is_space
    get_item find get_by_idempotency_key replay_or_insert get_by_policy_decision validate_approval
    same_mapping same_value get_by_approval authorize_action_creation validate_target
    get_environment get_resource locked_rule get_policy count_actions_for_incident_rule counts_for
    select Rules.decide decide_by matches inside_maintenance_window risk_value autonomy_value
    PolicyEffect-discrete get_incident violates_unique any insert_or_raced insert_action
    record_event Tables.save status_value
decide_returns = refl

decided_example : IsDecided lead 60 yes_please clock waiting_db granted.1 granted.0
decided_example =
    decide-IsDecided lead digest 60 yes_please clock waiting_db granted.1 granted.0 decide_returns

decided_once_example :
    decide none digest 60 (record yes_please { expected_version = 2 }) clock granted.1
    ≢ ok (asked, guarded)
decided_once_example =
    decided_once lead none digest 60 yes_please (record yes_please { expected_version = 2 }) clock
      clock waiting_db granted.1 granted.0 (asked, guarded) decide_returns

-- The run goes from PAUSED to QUEUED, which its transition table does not allow.
not_in_table :
    transition_investigation_run InvestigationRunStatus.paused InvestigationRunStatus.queued
    ≢ ok InvestigationRunStatus.queued
unfolding transition_investigation_run allowed_transitions InvestigationRunStatus-discrete
not_in_table h = cc h
