-- ===== src/Storage/Rows/Evidence.antt =====
-- models.py: hypotheses about an incident and the evidence for them.
use ops_pilot_ai.Base.{ℕ, String, Bool, Option, List}
use ops_pilot_ai.Domain.Hypotheses.{HypothesisStatus}
use ops_pilot_ai.Storage.Rows.Incidents.{Value}

pub record EvidenceRecord : Type 0 where
  pub id : ℕ
  pub incident_id : ℕ
  pub resource_id : Option ℕ
  pub evidence_type : String
  pub source : String
  pub summary : String
  pub content_hash : String
  pub redacted : Bool
  pub observed_from : Option ℕ
  pub observed_to : Option ℕ
  pub collected_at : Option ℕ
  pub collection_status : String
  pub time_confidence : String
  pub data_fields : List (String × Value)

pub record HypothesisRecord : Type 0 where
  pub id : ℕ
  pub incident_id : ℕ
  pub ordinal : ℕ
  pub summary : String
  pub confidence : ℕ
  pub status : HypothesisStatus
  pub supporting_evidence_ids : List ℕ
  pub contradicting_evidence_ids : List ℕ
  pub version : ℕ
  pub updated_at : ℕ
