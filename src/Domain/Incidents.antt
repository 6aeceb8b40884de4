-- ===== src/Domain/Incidents.antt =====
-- backend/app/domain/incidents: the incident statuses, their table and `transition_incident`.
pub mod Lifecycle
use ops_pilot_ai.Base.{
  String, List, [], ◌∷◌, HasEquals, of_discrete, contains, if◌then◌else◌, Result, ok, err,
  value_error,
}

pub data IncidentStatus : Type 0 where
  detected correlating investigating diagnosed planning waiting_approval : IncidentStatus
  remediating verifying resolved closed observability_lost needs_human : IncidentStatus
  mitigated_not_resolved failed cancelled : IncidentStatus

pub data Severity : Type 0 where
  critical high medium low : Severity

unfoldable pub IncidentStatus-discrete : Discrete IncidentStatus
IncidentStatus-discrete = hlevel

instance abbrev pub incident_status_eq : HasEquals IncidentStatus
incident_status_eq = of_discrete IncidentStatus-discrete

-- `IncidentStatus.value`
unfoldable pub value : IncidentStatus → String
value detected = "DETECTED"
value correlating = "CORRELATING"
value investigating = "INVESTIGATING"
value diagnosed = "DIAGNOSED"
value planning = "PLANNING"
value waiting_approval = "WAITING_APPROVAL"
value remediating = "REMEDIATING"
value verifying = "VERIFYING"
value resolved = "RESOLVED"
value closed = "CLOSED"
value observability_lost = "OBSERVABILITY_LOST"
value needs_human = "NEEDS_HUMAN"
value mitigated_not_resolved = "MITIGATED_NOT_RESOLVED"
value failed = "FAILED"
value cancelled = "CANCELLED"

-- `_ALLOWED_TRANSITIONS`
unfoldable pub allowed_transitions : IncidentStatus → List IncidentStatus
unfolding IncidentStatus-discrete
allowed_transitions detected = correlating ∷ cancelled ∷ []
allowed_transitions correlating = investigating ∷ needs_human ∷ failed ∷ []
allowed_transitions investigating = diagnosed ∷ observability_lost ∷ needs_human ∷ failed ∷ []
allowed_transitions diagnosed = planning ∷ needs_human ∷ []
allowed_transitions planning = waiting_approval ∷ remediating ∷ needs_human ∷ []
allowed_transitions waiting_approval = remediating ∷ cancelled ∷ needs_human ∷ []
allowed_transitions remediating = verifying ∷ needs_human ∷ failed ∷ []
allowed_transitions verifying = resolved ∷ mitigated_not_resolved ∷ investigating ∷ needs_human ∷ []
allowed_transitions resolved = closed ∷ investigating ∷ []
allowed_transitions observability_lost = investigating ∷ needs_human ∷ cancelled ∷ []
allowed_transitions mitigated_not_resolved = investigating ∷ resolved ∷ needs_human ∷ []
allowed_transitions needs_human = investigating ∷ cancelled ∷ failed ∷ []
allowed_transitions closed = []
allowed_transitions failed = []
allowed_transitions cancelled = []

-- `transition_incident`
unfoldable pub transition_incident : IncidentStatus → IncidentStatus → Result IncidentStatus
transition_incident current target =
    if contains (allowed_transitions current) target then ok target else err value_error
