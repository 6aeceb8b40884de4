-- ===== src/Hypotheses/Creating.antt =====
-- `HypothesisService.create` and the evidence for hypotheses.
use ops_pilot_ai.Base.{
  ℕ, ◌+◌, String, none, some, List, [], ◌∷◌, ◌++◌, ◌≡◌, ◌≢◌, arith, ok, err, Error, inl, inr,
  nat_eq, All-append, Option-cases, Result-cases,
}
use ops_pilot_ai.Storage.Rows.{HypothesisRecord, IncidentRecord}
use ops_pilot_ai.Storage.Database.{Db}
use ops_pilot_ai.Storage.Database.Scope.{Context}
use ops_pilot_ai.Storage.Repositories.{get_incident}
use ops_pilot_ai.Events.{record_event, about}
use ops_pilot_ai.Hypotheses.{validate_evidence, event_payload, insert_hypothesis, create}
use ops_pilot_ai.Hypotheses.Evidence.{
  HasGrounds, AreGrounded, validate_evidence-HasGrounds, record_event_keeps,
}

module _ (c : Context) (n : ℕ) (summary : String) (confidence : ℕ) (s k : List ℕ) (now : ℕ)
    (db db' : Db) (h : HypothesisRecord) where
  no_incident : get_incident c n db ≡ none → create c n summary confidence s k now db ≢ ok (h, db')
  unfolding create
  no_incident e f = ground arith

  invalid :
      (i : IncidentRecord) (e : Error)
      → get_incident c n db ≡ some i
      → validate_evidence n s k db ≡ err e
      → create c n summary confidence s k now db ≢ ok (h, db')
  unfolding create
  invalid i e g f p = ground arith

  create_event :
      (i : IncidentRecord)
      → get_incident c n db ≡ some i
      → validate_evidence n s k db ≡ ok (tt, db)
      → create c n summary confidence s k now db ≡ ok (h, db')
      → (h.incident_id ≡ n)
        × (h.supporting_evidence_ids ≡ s)
        × (h.contradicting_evidence_ids ≡ k)
        × (record_event c i "hypothesis.created" now "agent"
              (event_payload h)
              (about "hypothesis" h.id h.version)
              (record db { hypotheses = db.hypotheses ++ h ∷ []; next_id = db.next_id + 1 })
            ≡ ok (tt, db'))
  unfolding create insert_hypothesis
  create_event i g f p = ground arith

  pub create-AreGrounded :
      AreGrounded db → create c n summary confidence s k now db ≡ ok (h, db') → AreGrounded db'
  create-AreGrounded v p = elim (Option-cases (get_incident c n db)) [
    | inl g ↦ absurd (no_incident g p)
    | inr (i, g) ↦ elim (Result-cases (validate_evidence n s k db)) [
      | inr (e, f) ↦ absurd (invalid i e g f p)
      | inl ((_, d), f) ↦
          let (own, same) = validate_evidence-HasGrounds n s k db d f in
          let (a, b, e, w) = create_event i g (rw same at f) p in
          let (x, y) =
            record_event_keeps c i "hypothesis.created" now "agent" _ _
              (record db { hypotheses = db.hypotheses ++ h ∷ []; next_id = db.next_id + 1 }) db'
              w in
          rw (x, y)
            (All-append
              (λ (z : HypothesisRecord).
                HasGrounds db.evidence z.incident_id z.supporting_evidence_ids
                  z.contradicting_evidence_ids)
              db.hypotheses h v (rw (a, b, e) own))
    ]
  ]
