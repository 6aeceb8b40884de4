-- ===== src/Hypotheses/Updating.antt =====
-- `HypothesisService.update` and the evidence for hypotheses.
use ops_pilot_ai.Base.{
  ℕ, ◌+◌, Option, none, some, List, [], ◌∷◌, ◌++◌, ◌≡◌, ◌≢◌, arith, ok, err, Error, inl, inr,
  nat_eq, Option-cases, Result-cases,
}
use ops_pilot_ai.Domain.Hypotheses.{HypothesisStatus, value, transition_hypothesis}
use ops_pilot_ai.Storage.Tables
use ops_pilot_ai.Storage.Rows.{text, HypothesisRecord, IncidentRecord}
use ops_pilot_ai.Storage.Database.{Db}
use ops_pilot_ai.Storage.Database.Scope.{Context}
use ops_pilot_ai.Storage.Repositories.{get_incident, get_hypothesis}
use ops_pilot_ai.Events.{record_event, about}
use ops_pilot_ai.Hypotheses.{
  validate_evidence, event_payload, HypothesisChange, or_else, next_status, changed_hypothesis,
  update,
}
use ops_pilot_ai.Hypotheses.Evidence.{
  HasGrounds, AreGrounded, validate_evidence-HasGrounds, record_event_keeps,
}

next_status_keeps :
    (s t : HypothesisStatus) (o : Option HypothesisStatus) (db d : Db)
    → next_status s o db ≡ ok (t, d)
    → d ≡ db
unfolding next_status transition_hypothesis
next_status_keeps s t none db d h = ground arith
next_status_keeps s t (some u) db d h = ground arith

abbrev with_hypothesis : HypothesisRecord → Db → Db
with_hypothesis h db = record db {
  hypotheses = Tables.save (λ (r : HypothesisRecord). r.id) h db.hypotheses;
}

module _ (c : Context) (n hid v : ℕ) (r : HypothesisChange) (now : ℕ) (db db' : Db)
    (h : HypothesisRecord) where
  no_holder : get_incident c n db ≡ none → update c n hid v r now db ≢ ok (h, db')
  unfolding update
  no_holder e f = ground arith

  not_found :
      (i : IncidentRecord)
      → get_incident c n db ≡ some i
      → get_hypothesis hid db ≡ none
      → update c n hid v r now db ≢ ok (h, db')
  unfolding update
  not_found i g e f = ground arith

  same_incident :
      (i : IncidentRecord) (x : HypothesisRecord)
      → get_incident c n db ≡ some i
      → get_hypothesis hid db ≡ some x
      → update c n hid v r now db ≡ ok (h, db')
      → x.incident_id ≡ n
  unfolding update
  same_incident i x g f p = ground arith

  abbrev support : HypothesisRecord → List ℕ
  support x = or_else r.supporting_evidence_ids x.supporting_evidence_ids

  abbrev contradict : HypothesisRecord → List ℕ
  contradict x = or_else r.contradicting_evidence_ids x.contradicting_evidence_ids

  not_valid :
      (i : IncidentRecord) (x : HypothesisRecord) (e : Error)
      → get_incident c n db ≡ some i
      → get_hypothesis hid db ≡ some x
      → validate_evidence n (support x) (contradict x) db ≡ err e
      → update c n hid v r now db ≢ ok (h, db')
  unfolding update
  not_valid i x e g f w p = ground arith

  not_allowed :
      (i : IncidentRecord) (x : HypothesisRecord) (e : Error)
      → get_incident c n db ≡ some i
      → get_hypothesis hid db ≡ some x
      → validate_evidence n (support x) (contradict x) db ≡ ok (tt, db)
      → next_status x.status r.status db ≡ err e
      → update c n hid v r now db ≢ ok (h, db')
  unfolding update
  not_allowed i x e g f w s p = ground arith

  update_event :
      (i : IncidentRecord) (x : HypothesisRecord) (t : HypothesisStatus)
      → get_incident c n db ≡ some i
      → get_hypothesis hid db ≡ some x
      → x.incident_id ≡ n
      → validate_evidence n (support x) (contradict x) db ≡ ok (tt, db)
      → next_status x.status r.status db ≡ ok (t, db)
      → update c n hid v r now db ≡ ok (h, db')
      → (h ≡ changed_hypothesis x r t now)
        × (record_event c i "hypothesis.updated" now "agent"
              (event_payload (changed_hypothesis x r t now)
                ++ ("previousStatus", text (value x.status)) ∷ [])
              (about "hypothesis" x.id (x.version + 1))
              (with_hypothesis (changed_hypothesis x r t now) db)
            ≡ ok (tt, db'))
  unfolding update
  update_event i x t g f own w s p = ground arith

  pub update-AreGrounded :
      AreGrounded db → update c n hid v r now db ≡ ok (h, db') → AreGrounded db'
  update-AreGrounded grounds p = elim (Option-cases (get_incident c n db)) [
    | inl g ↦ absurd (no_holder g p)
    | inr (i, g) ↦ elim (Option-cases (get_hypothesis hid db)) [
      | inl f ↦ absurd (not_found i g f p)
      | inr (x, f) ↦ elim (Result-cases (validate_evidence n (support x) (contradict x) db)) [
        | inr (e, w) ↦ absurd (not_valid i x e g f w p)
        | inl ((_, d), w) ↦
            let (own, same) = validate_evidence-HasGrounds n (support x) (contradict x) db d w in
            elim (Result-cases (next_status x.status r.status db)) [
              | inr (e, s) ↦ absurd (not_allowed i x e g f (rw same at w) s p)
              | inl ((t, d'), s) ↦
                  let k = same_incident i x g f p in
                  let (q, z) =
                    update_event i x t g f k (rw same at w)
                      (rw (next_status_keeps x.status t r.status db d' s) at s) p in
                  let (a, b) =
                    record_event_keeps c i "hypothesis.updated" now "agent" _ _
                      (with_hypothesis (changed_hypothesis x r t now) db) db' z in
                  rw (a, b)
                    (Tables.All-save (λ (z : HypothesisRecord). z.id)
                      (λ (z : HypothesisRecord).
                        HasGrounds db.evidence z.incident_id z.supporting_evidence_ids
                          z.contradicting_evidence_ids)
                      (changed_hypothesis x r t now) db.hypotheses grounds (rw k own))
            ]
      ]
    ]
  ]
