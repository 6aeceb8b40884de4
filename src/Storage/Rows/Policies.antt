-- ===== src/Storage/Rows/Policies.antt =====
-- models.py: policy rules, decision snapshots and approvals.
use ops_pilot_ai.Base.{ℕ, ℤ, String, Bool, Option, List}
use ops_pilot_ai.Domain.Approvals.{ApprovalStatus}
use ops_pilot_ai.Domain.Plans.{PlanStepRisk}
use ops_pilot_ai.Domain.Policies.{PolicyEffect, AutonomyLevel}
use ops_pilot_ai.Domain.Security.{ActorId}
use ops_pilot_ai.Storage.Rows.Incidents.{Value}

pub record PolicyRuleRecord : Type 0 where
  pub id : ℕ
  pub environment_id : ℕ
  pub name : String
  pub description : Option String
  pub priority : ℤ
  pub enabled : Bool
  pub effect : PolicyEffect
  pub autonomy_levels : List String
  pub risk_levels : List String
  pub capabilities : List String
  pub resource_ids : List ℕ
  pub approval_required : Bool
  pub maintenance_days : List ℕ
  pub maintenance_start_minute : Option ℕ
  pub maintenance_end_minute : Option ℕ
  pub max_executions_per_incident : Option ℕ
  pub version : ℕ
  pub created_at : ℕ
  pub updated_at : ℕ

-- The sentence that says why, as the facts that it is put together from.
pub data Reason : Type 0 where
  matched : PolicyEffect → String → ℤ → Reason
  window_closed : String → Reason
  limit_reached : String → Reason
  default_deny : Reason

-- The texts of the columns `autonomy_level` and `risk` are values of their enumerations.
pub record PolicyDecisionRecord : Type 0 where
  pub id : ℕ
  pub evaluated_at : ℕ
  pub evaluated_by : ActorId
  pub environment_id : ℕ
  pub incident_id : ℕ
  pub resource_id : ℕ
  pub capability : String
  pub autonomy_level : AutonomyLevel
  pub risk : PlanStepRisk
  pub allowed : Bool
  pub approval_required : Bool
  pub matched_rule_id : Option ℕ
  pub matched_rule_version : Option ℕ
  pub effect : Option PolicyEffect
  pub reason : Reason

pub record ApprovalRecord : Type 0 where
  pub id : ℕ
  pub policy_decision_id : ℕ
  pub environment_id : ℕ
  pub incident_id : ℕ
  pub resource_id : ℕ
  pub capability : String
  pub status : ApprovalStatus
  pub requested_by : ActorId
  pub decided_by : Option ActorId
  pub expires_at : ℕ
  pub decided_at : Option ℕ
  pub decision_comment : Option String
  pub parameters : List (String × Value)
  pub editable_parameter_keys : List String
  pub version : ℕ
  pub updated_at : ℕ
