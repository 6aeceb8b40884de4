-- ===== src/Plans.antt =====
-- backend/app/services/plans.py: the dependencies of the steps of a plan. The texts that a step
-- depends on are the spellings of the ordinals of earlier steps.
pub mod Dependencies
pub mod Readiness
use ops_pilot_ai.Base.{
  ℕ, ◌+◌, String, Bool, true, false, not, ◌&&◌, ◌||◌, Option, none, some, List, [], ◌∷◌, nat_eq,
  string_eq, ◌==◌, Result, ok, err, Error, application, value_error, if◌then◌else◌, leb, ltb,
  contains, int, str, find, is_none,
}
use ops_pilot_ai.Domain.Plans.{PlanStepType, PlanStepRisk, PlanStepStatus, plan_step_status_eq}
use ops_pilot_ai.Storage.Rows.{PlanStepRecord}

pub record PlanStepInput : Type 0 where
  pub title : String
  pub objective : String
  pub step_type : PlanStepType
  pub dependencies : List String
  pub resource_scope : List String
  pub allowed_capabilities : List String
  pub expected_evidence : List String
  pub success_criteria : List String
  pub risk : PlanStepRisk

-- The loop body of `_validate_plan_dependencies` for a dependency that `int` reads as `n`.
abbrev check_ordinal : ℕ → List ℕ → String → ℕ → Result ℕ
check_ordinal ordinal seen dependency n =
    if not (str n == dependency) || not (leb 1 n && ltb n ordinal)
    then err (application "INVALID_PLAN_DEPENDENCY" 422)
    else if contains seen n
    then err (application "DUPLICATE_PLAN_DEPENDENCY" 422)
    else ok n

abbrev check_read : ℕ → List ℕ → String → Option ℕ → Result ℕ
check_read ordinal seen dependency none = err (application "INVALID_PLAN_DEPENDENCY" 422)
check_read ordinal seen dependency (some n) = check_ordinal ordinal seen dependency n

-- The loop body of `_validate_plan_dependencies`: the ordinal that the dependency names. A text
-- that Python's `int` reads and that is not one or more of the digits 0 to 9 is not the `str` of a
-- number from 1, and raises the same error.
unfoldable pub validate_dependency : ℕ → List ℕ → String → Result ℕ
validate_dependency ordinal seen dependency = check_read ordinal seen dependency (int dependency)

-- The inner loop of `_validate_plan_dependencies`, for the step `ordinal` and the ordinals `seen`.
unfoldable pub validate_step : ℕ → List ℕ → List String → Result (Unit {0})
validate_step ordinal seen [] = ok tt
validate_step ordinal seen (dependency ∷ dependencies) =
    elim (validate_dependency ordinal seen dependency) [
      | err e ↦ err e
      | ok n ↦ validate_step ordinal (n ∷ seen) dependencies
    ]

-- The outer loop of `_validate_plan_dependencies` from the step `ordinal` on.
unfoldable pub validate_steps : ℕ → List PlanStepInput → Result (Unit {0})
validate_steps ordinal [] = ok tt
validate_steps ordinal (step ∷ steps) = elim (validate_step ordinal [] step.dependencies) [
  | err e ↦ err e
  | ok u ↦ validate_steps (ordinal + 1) steps
]

-- `_validate_plan_dependencies`
unfoldable pub validate_plan_dependencies : List PlanStepInput → Result (Unit {0})
validate_plan_dependencies steps = validate_steps 1 steps

abbrev pub is_done : PlanStepRecord → Bool
is_done s = s.status == PlanStepStatus.completed || s.status == PlanStepStatus.skipped

-- `by_ordinal.get(n)`: the last step with the ordinal.
unfoldable pub by_ordinal : ℕ → List PlanStepRecord → Option PlanStepRecord
by_ordinal n [] = none
by_ordinal n (s ∷ steps) = elim (by_ordinal n steps) [
  | some t ↦ some t
  | none ↦ if s.ordinal == n then some s else none
]

abbrev pub done_step : Option PlanStepRecord → Bool
done_step none = false
done_step (some s) = is_done s

-- The loop of `_validate_dependencies_ready`: the dependencies that are not met. A text that `int`
-- does not read raises `ValueError`; a stored dependency is spelled as
-- `_validate_plan_dependencies` wants it.
unfoldable pub unmet_dependencies : List PlanStepRecord → List String → Result (List String)
unmet_dependencies steps [] = ok []
unmet_dependencies steps (dependency ∷ dependencies) = elim (int dependency) [
  | none ↦ err value_error
  | some n ↦ elim (unmet_dependencies steps dependencies) [
    | err e ↦ err e
    | ok unmet ↦ ok (if done_step (by_ordinal n steps) then unmet else dependency ∷ unmet)
  ]
]

abbrev raise_unmet : Result (List String) → Result (Unit {0})
raise_unmet (err e) = err e
raise_unmet (ok []) = ok tt
raise_unmet (ok (d ∷ unmet)) = err (application "PLAN_STEP_DEPENDENCIES_UNMET" 409)

-- `_validate_dependencies_ready`
unfoldable pub validate_dependencies_ready :
    PlanStepRecord → List PlanStepRecord → Result (Unit {0})
unfolding unmet_dependencies
validate_dependencies_ready step all_steps =
    raise_unmet (unmet_dependencies all_steps step.dependencies)
