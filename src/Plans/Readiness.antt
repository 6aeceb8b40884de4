-- ===== src/Plans/Readiness.antt =====
-- `_validate_dependencies_ready` of backend/app/services/plans.py: when a step may run.
use ops_pilot_ai.Base.{ℕ, String, true, some, List, [], ◌≡◌, All, str}
use ops_pilot_ai.Storage.Rows.{PlanStepRecord}
use ops_pilot_ai.Plans.{by_ordinal, is_done}

-- The step with the ordinal that the dependency names is COMPLETED or SKIPPED.
abbrev pub IsMet : List PlanStepRecord → String → Type 0
IsMet steps d =
    (k : ℕ) × (s : PlanStepRecord) × (d ≡ str k)
    × (by_ordinal k steps ≡ some s)
    × (is_done s ≡ true)

-- The dependencies whose steps are not done.
abbrev AreUnmet : List PlanStepRecord → List String → List String → Type 0
AreUnmet steps ds unmet =
    ((unmet ≡ []) → All (IsMet steps) ds) × (All (IsMet steps) ds → unmet ≡ [])
