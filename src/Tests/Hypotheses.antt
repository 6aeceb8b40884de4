-- ===== src/Tests/Hypotheses.antt =====
-- A hypothesis that two pieces of evidence change.
use ops_pilot_ai.Base.{
  ℕ, false, none, some, [], ◌∷◌, ◌≡◌, refl, inl, Result, ok, err, any, all, select, application,
}
use ops_pilot_ai.Domain.Incidents.{IncidentStatus, IncidentStatus-discrete}
use ops_pilot_ai.Domain.Hypotheses
use ops_pilot_ai.Domain.Hypotheses.{
  HypothesisStatus, HypothesisStatus-discrete, transition_hypothesis, allowed_transitions,
}
use ops_pilot_ai.Storage.Tables
use ops_pilot_ai.Storage.Rows.{EvidenceRecord, HypothesisRecord}
use ops_pilot_ai.Storage.Database.{Db}
use ops_pilot_ai.Storage.Repositories.{get_incident, get_hypothesis, existing_ids_for_incident}
use ops_pilot_ai.Events.{record_event}
use ops_pilot_ai.Hypotheses.{validate_evidence, create, HypothesisChange, next_status, update}
use ops_pilot_ai.Hypotheses.Evidence.{AreGrounded}
use ops_pilot_ai.Hypotheses.Grounds.{updated, Changed-AreGrounded}
use ops_pilot_ai.Tests.World.{incident, monday, db}

abbrev evidence : ℕ → EvidenceRecord
evidence i = record {
  id = i;
  incident_id = 100;
  resource_id = none;
  evidence_type = "log";
  source = "docker";
  summary = "s";
  content_hash = "h";
  redacted = false;
  observed_from = none;
  observed_to = none;
  collected_at = none;
  collection_status = "succeeded";
  time_confidence = "runner_reported";
  data_fields = [];
}

abbrev hypothesis : HypothesisRecord
hypothesis = record {
  id = 110;
  incident_id = 100;
  ordinal = 1;
  summary = "a full disk";
  confidence = 40;
  status = HypothesisStatus.proposed;
  supporting_evidence_ids = 120 ∷ [];
  contradicting_evidence_ids = [];
  version = 1;
  updated_at = 0;
}

abbrev studied : Db
studied = record db {
  incidents = record incident { status = IncidentStatus.investigating } ∷ [];
  evidence = evidence 120 ∷ evidence 121 ∷ [];
  hypotheses = hypothesis ∷ [];
}

abbrev weaker : HypothesisChange
weaker = record {
  summary = none;
  confidence = some 20;
  status = some HypothesisStatus.weakened;
  supporting_evidence_ids = none;
  contradicting_evidence_ids = some (121 ∷ []);
}

abbrev row_of : Result (HypothesisRecord × Db) → HypothesisRecord × Db
row_of (ok r) = r
row_of (err e) = (hypothesis, db)

abbrev weakened : HypothesisRecord × Db
weakened = row_of (update none 100 110 1 weaker monday studied)

update_returns : update none 100 110 1 weaker monday studied ≡ ok (weakened.0, weakened.1)
unfolding update get_incident get_hypothesis Tables.get Tables.save validate_evidence
    existing_ids_for_incident any all select next_status transition_hypothesis allowed_transitions
    HypothesisStatus-discrete record_event Hypotheses.value
update_returns = refl

studied-AreGrounded : AreGrounded studied
studied-AreGrounded = (
  record {
    for_it = ((evidence 120, inl refl, refl, refl), tt);
    against_it = tt;
    disjoint = (refl, tt);
  },
  tt,
)

grounds_example : AreGrounded weakened.1
grounds_example =
    Changed-AreGrounded studied weakened.1 studied-AreGrounded
      (updated none 100 110 1 weaker monday weakened.0 update_returns)

-- The same evidence on both sides.
both_sides :
    create none 100 "s" 50 (120 ∷ []) (120 ∷ []) monday studied
    ≡ err (application "HYPOTHESIS_EVIDENCE_CONFLICT" 422)
unfolding create get_incident Tables.get validate_evidence IncidentStatus-discrete any
both_sides = refl
