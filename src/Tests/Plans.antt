-- ===== src/Tests/Plans.antt =====
-- A plan of three steps, where the last depends on the others.
use ops_pilot_ai.Base.{
  ℕ, String, none, List, [], ◌∷◌, ◌≡◌, ◌↔◌, refl, ok, err, application, str, int, spell, digit,
  digits,
}
use ops_pilot_ai.Domain.Plans.{PlanStepType, PlanStepRisk, PlanStepStatus, PlanStepStatus-discrete}
use ops_pilot_ai.Storage.Rows.{PlanStepRecord}
use ops_pilot_ai.Plans.{
  PlanStepInput, validate_dependency, validate_step, validate_steps, validate_plan_dependencies,
  by_ordinal, unmet_dependencies, validate_dependencies_ready,
}
use ops_pilot_ai.Plans.Dependencies.{AreDependencies, validate_plan_dependencies_iff}

abbrev step_on : List String → PlanStepInput
step_on dependencies = record {
  title = "t";
  objective = "o";
  step_type = PlanStepType.observe;
  dependencies = dependencies;
  resource_scope = [];
  allowed_capabilities = [];
  expected_evidence = [];
  success_criteria = [];
  risk = PlanStepRisk.read_only;
}

abbrev plan : List PlanStepInput
plan = step_on [] ∷ step_on ("1" ∷ []) ∷ step_on ("2" ∷ "1" ∷ []) ∷ []

plan_example : (validate_plan_dependencies plan ≡ ok tt) ↔ AreDependencies 1 plan
plan_example = validate_plan_dependencies_iff plan

accepted : validate_plan_dependencies plan ≡ ok tt
unfolding validate_plan_dependencies validate_steps validate_step validate_dependency int digits str
    spell digit
accepted = refl

-- A step on itself, and a number that `str` spells in another way.
on_itself :
    validate_plan_dependencies (step_on ("1" ∷ []) ∷ [])
    ≡ err (application "INVALID_PLAN_DEPENDENCY" 422)
unfolding validate_plan_dependencies validate_steps validate_step validate_dependency int digits str
    spell digit
on_itself = refl

with_zero :
    validate_plan_dependencies (step_on [] ∷ step_on ("01" ∷ []) ∷ [])
    ≡ err (application "INVALID_PLAN_DEPENDENCY" 422)
unfolding validate_plan_dependencies validate_steps validate_step validate_dependency int digits str
    spell digit
with_zero = refl

abbrev stored_step : ℕ → PlanStepStatus → List String → PlanStepRecord
stored_step ordinal status dependencies = record {
  id = ordinal;
  plan_id = 1;
  ordinal = ordinal;
  title = "t";
  objective = "o";
  step_type = PlanStepType.observe;
  dependencies = dependencies;
  resource_scope = [];
  allowed_capabilities = [];
  expected_evidence = [];
  success_criteria = [];
  risk = PlanStepRisk.read_only;
  status = status;
  attempts = 0;
  evidence_ids = [];
  result_summary = none;
  version = 1;
  updated_at = 0;
}

abbrev last_step : PlanStepRecord
last_step = stored_step 3 PlanStepStatus.pending ("2" ∷ "1" ∷ [])

abbrev all_steps : List PlanStepRecord
all_steps =
    stored_step 1 PlanStepStatus.completed []
    ∷ stored_step 2 PlanStepStatus.running ("1" ∷ [])
    ∷ last_step
    ∷ []

-- The second step still runs.
not_ready :
    validate_dependencies_ready last_step all_steps
    ≡ err (application "PLAN_STEP_DEPENDENCIES_UNMET" 409)
unfolding validate_dependencies_ready unmet_dependencies by_ordinal PlanStepStatus-discrete int
    digits
not_ready = refl
