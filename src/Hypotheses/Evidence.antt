-- ===== src/Hypotheses/Evidence.antt =====
-- `_validate_evidence` of backend/app/services/hypotheses.py: what holds of the evidence it accepts.
use ops_pilot_ai.Base.{
  ℕ, String, Bool, true, false, ◌&&◌, List, [], ◌∷◌, map, ◌≡◌, refl, ap, arith, ok, inl, inr,
  nat_eq, ◌==◌, any, any-false, all, contains, All, All-map, In, In-select, Bool-cases,
}
use ops_pilot_ai.Storage.Rows.{EvidenceRecord, HypothesisRecord, IncidentRecord}
use ops_pilot_ai.Storage.Database.{Db}
use ops_pilot_ai.Storage.Database.Scope.{Context}
use ops_pilot_ai.Storage.Repositories.{existing_ids_for_incident}
use ops_pilot_ai.Events.{Payload, Aggregate, record_event}
use ops_pilot_ai.Events.Recording.{record_event_inversion}
use ops_pilot_ai.Hypotheses.{union, validate_evidence}

-- The evidence is stored, for the incident.
abbrev pub IsEvidenceOf : List EvidenceRecord → ℕ → ℕ → Type 0
IsEvidenceOf evidence n i = (e : EvidenceRecord) × In e evidence × (e.incident_id ≡ n) × (e.id ≡ i)

-- All the evidence that a hypothesis names is of its incident, and none of it both supports and
-- contradicts the hypothesis.
pub record HasGrounds (evidence : List EvidenceRecord) (n : ℕ) (supporting contradicting : List ℕ)
    : Type 0 where
  pub for_it : All (IsEvidenceOf evidence n) supporting
  pub against_it : All (IsEvidenceOf evidence n) contradicting
  pub disjoint : All (λ (i : ℕ). contains contradicting i ≡ false) supporting

abbrev pub AreGrounded : Db → Type 0
AreGrounded db =
    All
      (λ (h : HypothesisRecord).
        HasGrounds db.evidence h.incident_id h.supporting_evidence_ids h.contradicting_evidence_ids)
      db.hypotheses

all_passed : (p : ℕ → Bool) (xs : List ℕ) → all p xs ≡ true → All (λ i. p i ≡ true) xs
unfolding all
all_passed p [] h = tt
all_passed p (x ∷ xs) h = (ground arith, all_passed p xs (ground arith))

union_parts : (P : ℕ → Type 0) (is js : List ℕ) → All P (union is js) → All P is × All P js
union_parts P [] js h = (tt, h)
union_parts P (i ∷ is) js h = let (a, b) = union_parts P is js h.1 in ((h.0, a), b)

in_rows :
    (rows : List EvidenceRecord) (i : ℕ)
    → contains (map (λ (e : EvidenceRecord). e.id) rows) i ≡ true
    → (e : EvidenceRecord) × In e rows × (e.id ≡ i)
in_rows [] i h = absurd (cc h)
in_rows (x ∷ rows) i h = elim (Bool-cases (x.id == i)) [
  | inl t ↦ (x, inl refl, ground arith)
  | inr f ↦ let (e, m, q) = in_rows rows i (ground (arith, f, h)) in (e, inr m, q)
]

existing_is_evidence :
    (n : ℕ) (ids : List ℕ) (db : Db) (i : ℕ)
    → contains (existing_ids_for_incident n ids db) i ≡ true
    → IsEvidenceOf db.evidence n i
unfolding existing_ids_for_incident
existing_is_evidence n ids db i h =
    let (e, m, q) = in_rows _ i h in
    let (k, t) =
      (In-select (λ (e : EvidenceRecord). e.incident_id == n && contains ids e.id) e db.evidence).0
        m in
    (e, k, ground (arith, t), q)

evidence_checks :
    (n : ℕ) (s k : List ℕ) (db db' : Db)
    → validate_evidence n s k db ≡ ok (tt, db')
    → (any (contains k) s ≡ false)
      × (all (contains (existing_ids_for_incident n (union s k) db)) (union s k) ≡ true)
      × (db' ≡ db)
unfolding validate_evidence
evidence_checks n s k db db' h = ground arith

pub validate_evidence-HasGrounds :
    (n : ℕ) (s k : List ℕ) (db db' : Db)
    → validate_evidence n s k db ≡ ok (tt, db')
    → HasGrounds db.evidence n s k × (db' ≡ db)
validate_evidence-HasGrounds n s k db db' h =
    let (a, b, same) = evidence_checks n s k db db' h in
    let (x, y) = union_parts (IsEvidenceOf db.evidence n) s k (
      All-map _ (IsEvidenceOf db.evidence n) (λ i t. existing_is_evidence n (union s k) db i t)
        (union s k)
        (all_passed (contains (existing_ids_for_incident n (union s k) db)) (union s k) b)) in
    (record { for_it = x; against_it = y; disjoint = any-false (contains k) s a }, same)

pub record_event_keeps :
    (c : Context) (incident : IncidentRecord) (event_type : String) (t : ℕ) (actor : String)
    (payload : Payload) (a : Aggregate) (db db' : Db)
    → record_event c incident event_type t actor payload a db ≡ ok (tt, db')
    → (db'.hypotheses ≡ db.hypotheses) × (db'.evidence ≡ db.evidence)
record_event_keeps c incident event_type t actor payload a db db' h =
    let (j, m, q) = record_event_inversion c incident event_type t actor payload a db db' h in
    (ap (λ (x : Db). x.hypotheses) q, ap (λ (x : Db). x.evidence) q)
