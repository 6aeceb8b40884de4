-- ===== src/Domain/Plans.antt =====
-- backend/app/domain/plans: plan and step enumerations, the step table and `transition_plan_step`.
use ops_pilot_ai.Base.{
  String, List, [], ◌∷◌, HasEquals, of_discrete, contains, if◌then◌else◌, Result, ok, err,
  value_error,
}

pub data PlanStatus : Type 0 where
  draft active completed superseded failed : PlanStatus

pub data PlanStepType : Type 0 where
  observe analyze experiment remediate verify human : PlanStepType

pub data PlanStepRisk : Type 0 where
  read_only low medium high : PlanStepRisk

pub data PlanStepStatus : Type 0 where
  pending running completed failed skipped blocked : PlanStepStatus

unfoldable pub PlanStatus-discrete : Discrete PlanStatus
PlanStatus-discrete = hlevel

instance abbrev pub plan_status_eq : HasEquals PlanStatus
plan_status_eq = of_discrete PlanStatus-discrete

unfoldable pub PlanStepType-discrete : Discrete PlanStepType
PlanStepType-discrete = hlevel

instance abbrev pub plan_step_type_eq : HasEquals PlanStepType
plan_step_type_eq = of_discrete PlanStepType-discrete

unfoldable pub PlanStepStatus-discrete : Discrete PlanStepStatus
PlanStepStatus-discrete = hlevel

instance abbrev pub plan_step_status_eq : HasEquals PlanStepStatus
plan_step_status_eq = of_discrete PlanStepStatus-discrete

-- `PlanStepRisk.value`
unfoldable pub risk_value : PlanStepRisk → String
risk_value read_only = "read_only"
risk_value low = "low"
risk_value medium = "medium"
risk_value high = "high"

-- `PlanStepStatus.value`
unfoldable pub step_status_value : PlanStepStatus → String
step_status_value pending = "pending"
step_status_value running = "running"
step_status_value PlanStepStatus.completed = "completed"
step_status_value PlanStepStatus.failed = "failed"
step_status_value skipped = "skipped"
step_status_value blocked = "blocked"

-- `_ALLOWED_TRANSITIONS`
unfoldable pub allowed_transitions : PlanStepStatus → List PlanStepStatus
unfolding PlanStepStatus-discrete
allowed_transitions pending = running ∷ skipped ∷ blocked ∷ []
allowed_transitions running = PlanStepStatus.completed ∷ PlanStepStatus.failed ∷ blocked ∷ []
allowed_transitions PlanStepStatus.failed = pending ∷ skipped ∷ []
allowed_transitions blocked = pending ∷ skipped ∷ []
allowed_transitions PlanStepStatus.completed = []
allowed_transitions skipped = []

unfoldable pub transition_plan_step : PlanStepStatus → PlanStepStatus → Result PlanStepStatus
transition_plan_step current target =
    if contains (allowed_transitions current) target then ok target else err value_error
