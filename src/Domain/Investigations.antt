-- ===== src/Domain/Investigations.antt =====
-- backend/app/domain/investigations: run statuses, wait statuses and `transition_investigation_run`.
pub mod Graphs
use ops_pilot_ai.Base.{
  String, List, [], ◌∷◌, HasEquals, of_discrete, contains, if◌then◌else◌, Result, ok, err,
  value_error,
}

pub data InvestigationRunStatus : Type 0 where
  queued running paused completed failed cancelled : InvestigationRunStatus

unfoldable pub InvestigationRunStatus-discrete : Discrete InvestigationRunStatus
InvestigationRunStatus-discrete = hlevel

instance abbrev pub run_status_eq : HasEquals InvestigationRunStatus
run_status_eq = of_discrete InvestigationRunStatus-discrete

-- `InvestigationRunStatus.value`
unfoldable pub value : InvestigationRunStatus → String
value queued = "queued"
value running = "running"
value paused = "paused"
value completed = "completed"
value failed = "failed"
value cancelled = "cancelled"

pub data InvestigationHitlSubjectType : Type 0 where
  approval compensation : InvestigationHitlSubjectType

pub data InvestigationHitlWaitStatus : Type 0 where
  waiting resolved cancelled : InvestigationHitlWaitStatus

unfoldable pub InvestigationHitlSubjectType-discrete : Discrete InvestigationHitlSubjectType
InvestigationHitlSubjectType-discrete = hlevel

instance abbrev pub hitl_subject_type_eq : HasEquals InvestigationHitlSubjectType
hitl_subject_type_eq = of_discrete InvestigationHitlSubjectType-discrete

unfoldable pub InvestigationHitlWaitStatus-discrete : Discrete InvestigationHitlWaitStatus
InvestigationHitlWaitStatus-discrete = hlevel

instance abbrev pub hitl_wait_status_eq : HasEquals InvestigationHitlWaitStatus
hitl_wait_status_eq = of_discrete InvestigationHitlWaitStatus-discrete

-- `InvestigationHITLSubjectType.value`
unfoldable pub subject_value : InvestigationHitlSubjectType → String
subject_value approval = "approval"
subject_value compensation = "compensation"

pub data InvestigationObservationWaitStatus : Type 0 where
  waiting resolved cancelled : InvestigationObservationWaitStatus

unfoldable pub InvestigationObservationWaitStatus-discrete :
    Discrete InvestigationObservationWaitStatus
InvestigationObservationWaitStatus-discrete = hlevel

instance abbrev pub observation_wait_status_eq : HasEquals InvestigationObservationWaitStatus
observation_wait_status_eq = of_discrete InvestigationObservationWaitStatus-discrete

-- `_ALLOWED_TRANSITIONS`
unfoldable pub allowed_transitions : InvestigationRunStatus → List InvestigationRunStatus
unfolding InvestigationRunStatus-discrete
allowed_transitions queued = running ∷ InvestigationRunStatus.cancelled ∷ []
allowed_transitions running = paused ∷ completed ∷ failed ∷ InvestigationRunStatus.cancelled ∷ []
allowed_transitions paused = running ∷ failed ∷ InvestigationRunStatus.cancelled ∷ []
allowed_transitions completed = []
allowed_transitions failed = []
allowed_transitions InvestigationRunStatus.cancelled = []

-- `transition_investigation_run`
unfoldable pub transition_investigation_run :
    InvestigationRunStatus → InvestigationRunStatus → Result InvestigationRunStatus
transition_investigation_run current target =
    if contains (allowed_transitions current) target then ok target else err value_error
