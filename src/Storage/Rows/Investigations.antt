-- ===== src/Storage/Rows/Investigations.antt =====
-- models.py: investigation runs and the waits for a human decision.
use ops_pilot_ai.Base.{ℕ, String, Option}
use ops_pilot_ai.Domain.Investigations.{
  InvestigationRunStatus, InvestigationHitlSubjectType, InvestigationHitlWaitStatus,
}

pub record InvestigationRunRecord : Type 0 where
  pub id : ℕ
  pub incident_id : ℕ
  pub thread_id : ℕ
  pub idempotency_key : String
  pub status : InvestigationRunStatus
  pub graph_version : String
  pub current_node : Option String
  pub iteration_count : ℕ
  pub max_iterations : ℕ
  pub last_checkpoint_sequence : ℕ
  pub started_at : Option ℕ
  pub completed_at : Option ℕ
  pub last_error_code : Option String
  pub runtime_owner : Option String
  pub runtime_lease_expires_at : Option ℕ
  pub runtime_attempt : ℕ
  pub model_request_limit : ℕ
  pub model_requests_used : ℕ
  pub model_input_tokens_used : ℕ
  pub model_output_tokens_used : ℕ
  pub version : ℕ
  pub updated_at : ℕ

pub record InvestigationHitlWaitRecord : Type 0 where
  pub id : ℕ
  pub run_id : ℕ
  pub incident_id : ℕ
  pub checkpoint_id : ℕ
  pub subject_type : InvestigationHitlSubjectType
  pub subject_id : ℕ
  pub status : InvestigationHitlWaitStatus
  pub outcome : Option String
  pub resolved_at : Option ℕ
  pub resumed_at : Option ℕ
  pub version : ℕ
  pub updated_at : ℕ
