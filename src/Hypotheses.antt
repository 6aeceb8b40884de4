-- ===== src/Hypotheses.antt =====
-- backend/app/services/hypotheses.py: the hypotheses about an incident and their evidence.
pub mod Evidence
pub mod Creating
pub mod Updating
pub mod Grounds
use ops_pilot_ai.Base.{
  ℕ, ◌+◌, String, Bool, true, false, not, ◌&&◌, ◌||◌, Option, none, some, List, [], ◌∷◌, ◌++◌,
  nat_eq, ◌==◌, application, any, all, contains, if◌then◌else◌, except_value_error,
}
use ops_pilot_ai.Domain.Incidents.{IncidentStatus, incident_status_eq}
use ops_pilot_ai.Domain.Hypotheses.{
  HypothesisStatus, proposed, hypothesis_status_eq, value, transition_hypothesis,
}
use ops_pilot_ai.Storage.Tables
use ops_pilot_ai.Storage.Rows.{text, uuid, number, uuids, HypothesisRecord}
use ops_pilot_ai.Storage.Database.{
  Db, Tx, pure, gets, or_raise, raise_if, lift, modify, fresh, ◌>>=◌, ◌>>◌,
}
use ops_pilot_ai.Storage.Database.Scope.{Context}
use ops_pilot_ai.Storage.Repositories.{
  get_incident, get_hypothesis, existing_ids_for_incident, last_ordinal,
}
use ops_pilot_ai.Events.{Payload, record_event, about}

-- `_HYPOTHESIS_INCIDENT_STATUSES`
abbrev pub hypothesis_incident_statuses : List IncidentStatus
hypothesis_incident_statuses =
    IncidentStatus.correlating ∷ IncidentStatus.investigating ∷ IncidentStatus.diagnosed
    ∷ IncidentStatus.planning ∷ IncidentStatus.observability_lost ∷ IncidentStatus.needs_human ∷ []

abbrev union : List ℕ → List ℕ → List ℕ
union [] js = js
union (i ∷ is) js = i ∷ union is js

-- `==` on the sets of two lists
abbrev same_set : List ℕ → List ℕ → Bool
same_set is js = all (contains js) is && all (contains is) js

-- `_validate_evidence`
unfoldable pub validate_evidence : ℕ → List ℕ → List ℕ → Tx (Unit {0})
validate_evidence incident_id supporting contradicting = do
  raise_if (any (contains contradicting) supporting)
      (application "HYPOTHESIS_EVIDENCE_CONFLICT" 422)
  existing ← gets (existing_ids_for_incident incident_id (union supporting contradicting))
  raise_if (not (same_set existing (union supporting contradicting)))
      (application "HYPOTHESIS_EVIDENCE_NOT_FOUND" 422)

-- `_event_payload`
abbrev pub event_payload : HypothesisRecord → Payload
event_payload h =
    ("hypothesisId", uuid h.id)
    ∷ ("ordinal", number h.ordinal)
    ∷ ("summary", text h.summary)
    ∷ ("confidence", number h.confidence)
    ∷ ("status", text (value h.status))
    ∷ ("supportingEvidenceIds", uuids h.supporting_evidence_ids)
    ∷ ("contradictingEvidenceIds", uuids h.contradicting_evidence_ids)
    ∷ ("version", number h.version)
    ∷ []

-- `HypothesisRepository.create`
unfoldable pub insert_hypothesis : ℕ → String → ℕ → List ℕ → List ℕ → ℕ → Tx HypothesisRecord
insert_hypothesis incident_id summary confidence supporting contradicting now = do
  last ← gets (λ db. last_ordinal incident_id db.hypotheses)
  i ← fresh
  let row : HypothesisRecord = record {
    id = i;
    incident_id = incident_id;
    ordinal = last + 1;
    summary = summary;
    confidence = confidence;
    status = proposed;
    supporting_evidence_ids = supporting;
    contradicting_evidence_ids = contradicting;
    version = 1;
    updated_at = now;
  }
  modify (λ db. record db { hypotheses = db.hypotheses ++ row ∷ [] })
  pure row

-- `create`
unfoldable pub create : Context → ℕ → String → ℕ → List ℕ → List ℕ → ℕ → Tx HypothesisRecord
create c incident_id summary confidence supporting contradicting now = do
  found ← gets (get_incident c incident_id)
  incident ← or_raise found (application "INCIDENT_NOT_FOUND" 404)
  raise_if (not (contains hypothesis_incident_statuses incident.status))
      (application "INCIDENT_NOT_INVESTIGATING" 409)
  validate_evidence incident_id supporting contradicting
  row ← insert_hypothesis incident_id summary confidence supporting contradicting now
  record_event c incident "hypothesis.created" now "agent" (event_payload row)
      (about "hypothesis" row.id row.version)
  pure row

-- The changes that `update` is asked for.
pub record HypothesisChange : Type 0 where
  pub summary : Option String
  pub confidence : Option ℕ
  pub status : Option HypothesisStatus
  pub supporting_evidence_ids : Option (List ℕ)
  pub contradicting_evidence_ids : Option (List ℕ)

abbrev pub or_else {ℓ} : {A : Type ℓ} → Option A → A → A
or_else none a = a
or_else (some b) a = b

-- `if status is not None and status != record.status: …`
unfoldable pub next_status : HypothesisStatus → Option HypothesisStatus → Tx HypothesisStatus
next_status current none = pure current
next_status current (some target) =
    if target == current
    then pure current
    else lift (
        except_value_error (transition_hypothesis current target)
          (application "INVALID_HYPOTHESIS_TRANSITION" 409))

-- The row that `update` leaves.
abbrev pub changed_hypothesis :
    HypothesisRecord → HypothesisChange → HypothesisStatus → ℕ → HypothesisRecord
changed_hypothesis h r status now = record h {
  summary = or_else r.summary h.summary;
  confidence = or_else r.confidence h.confidence;
  status = status;
  supporting_evidence_ids = or_else r.supporting_evidence_ids h.supporting_evidence_ids;
  contradicting_evidence_ids = or_else r.contradicting_evidence_ids h.contradicting_evidence_ids;
  version = h.version + 1;
  updated_at = now;
}

-- `record is None or record.incident_id != incident_id`, negated
abbrev of_incident : ℕ → Option HypothesisRecord → Option HypothesisRecord
of_incident incident_id none = none
of_incident incident_id (some h) = if h.incident_id == incident_id then some h else none

-- The flush of the changes to a row of `hypotheses`.
abbrev pub save_hypothesis : HypothesisRecord → Tx (Unit {0})
save_hypothesis h =
    modify (λ db. record db {
      hypotheses = Tables.save (λ (r : HypothesisRecord). r.id) h db.hypotheses;
    })

-- `update`
unfoldable pub update : Context → ℕ → ℕ → ℕ → HypothesisChange → ℕ → Tx HypothesisRecord
update c incident_id hypothesis_id expected_version r now = do
  holder ← gets (get_incident c incident_id)
  incident ← or_raise holder (application "INCIDENT_NOT_FOUND" 404)
  found ← gets (get_hypothesis hypothesis_id)
  h ← or_raise (of_incident incident_id found) (application "HYPOTHESIS_NOT_FOUND" 404)
  raise_if (not (h.version == expected_version)) (application "HYPOTHESIS_VERSION_CONFLICT" 409)
  validate_evidence incident_id (or_else r.supporting_evidence_ids h.supporting_evidence_ids)
      (or_else r.contradicting_evidence_ids h.contradicting_evidence_ids)
  status ← next_status h.status r.status
  let row = changed_hypothesis h r status now
  save_hypothesis row
  record_event c incident "hypothesis.updated" now "agent"
      (event_payload row ++ ("previousStatus", text (value h.status)) ∷ [])
      (about "hypothesis" row.id row.version)
  pure row
