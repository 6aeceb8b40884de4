-- ===== src/Storage/Rows/Actions.antt =====
-- models.py: action proposals and requests and the locks on resources.
use ops_pilot_ai.Base.{ℕ, String, Bool, Option, List}
use ops_pilot_ai.Domain.Actions.{ActionProposalStatus, ActionRequestStatus}
use ops_pilot_ai.Domain.Security.{ActorId}
use ops_pilot_ai.Storage.Rows.Incidents.{Value}

pub record ActionProposalRecord : Type 0 where
  pub id : ℕ
  pub run_id : ℕ
  pub node_execution_id : String
  pub plan_step_id : Option ℕ
  pub environment_id : ℕ
  pub incident_id : ℕ
  pub resource_id : ℕ
  pub capability : String
  pub parameters : List (String × Value)
  pub verification_criteria : List String
  pub rollback_capability : Option String
  pub risk : String
  pub status : ActionProposalStatus
  pub policy_decision_id : Option ℕ
  pub approval_id : Option ℕ
  pub action_request_id : Option ℕ
  pub decision_reason : Option String
  pub version : ℕ
  pub updated_at : ℕ

pub record ActionRequestRecord : Type 0 where
  pub id : ℕ
  pub policy_decision_id : ℕ
  pub approval_id : Option ℕ
  pub environment_id : ℕ
  pub incident_id : ℕ
  pub resource_id : ℕ
  pub capability : String
  pub status : ActionRequestStatus
  pub parameters : List (String × Value)
  pub verification_criteria : List String
  pub rollback_capability : Option String
  pub idempotency_key : String
  pub request_fingerprint : ℕ
  pub created_by : ActorId
  pub cancelled_by : Option ActorId
  pub cancellation_reason : Option String
  pub version : ℕ
  pub updated_at : ℕ

pub record ResourceLockRecord : Type 0 where
  pub id : ℕ
  pub environment_id : ℕ
  pub resource_id : ℕ
  pub action_request_id : ℕ
  pub incident_id : ℕ
  pub fencing_token : ℕ
  pub acquired_at : ℕ
  pub renewed_at : ℕ
  pub expires_at : ℕ
  pub released_at : Option ℕ
  pub released_by : Option ActorId
  pub reconciliation_required : Bool
  pub updated_at : ℕ
