-- ===== src/Storage/Rows/Runners.antt =====
-- models.py: plans, their steps and the tasks that runners carry out.
use ops_pilot_ai.Base.{ℕ, String, Bool, Option, List}
use ops_pilot_ai.Domain.Plans.{PlanStatus, PlanStepType, PlanStepRisk, PlanStepStatus}
use ops_pilot_ai.Domain.RunnerTasks.{RunnerTaskStatus}
use ops_pilot_ai.Storage.Rows.Incidents.{Value}

pub record PlanRecord : Type 0 where
  pub id : ℕ
  pub incident_id : ℕ
  pub version : ℕ
  pub objective : String
  pub status : PlanStatus
  pub max_tool_calls : ℕ
  pub max_duration_seconds : ℕ
  pub replan_count : ℕ
  pub updated_at : ℕ

pub record PlanStepRecord : Type 0 where
  pub id : ℕ
  pub plan_id : ℕ
  pub ordinal : ℕ
  pub title : String
  pub objective : String
  pub step_type : PlanStepType
  pub dependencies : List String
  pub resource_scope : List String
  pub allowed_capabilities : List String
  pub expected_evidence : List String
  pub success_criteria : List String
  pub risk : PlanStepRisk
  pub status : PlanStepStatus
  pub attempts : ℕ
  pub evidence_ids : List String
  pub result_summary : Option String
  pub version : ℕ
  pub updated_at : ℕ

pub record RunnerTaskRecord : Type 0 where
  pub id : ℕ
  pub incident_id : ℕ
  pub plan_step_id : Option ℕ
  pub action_verification_id : Option ℕ
  pub resource_id : ℕ
  pub runner_id : Option ℕ
  pub connector : String
  pub operation : String
  pub parameters : List (String × Value)
  pub status : RunnerTaskStatus
  pub idempotency_key : String
  pub timeout_seconds : ℕ
  pub max_attempts : ℕ
  pub attempt : ℕ
  pub lease_expires_at : Option ℕ
  pub task_fencing_token : Option ℕ
  pub last_completion_id : Option ℕ
  pub evidence_id : Option ℕ
  pub result_summary : Option String
  pub error_code : Option String
  pub output_truncated : Bool
  pub completed_at : Option ℕ
  pub created_at : ℕ
  pub updated_at : ℕ
