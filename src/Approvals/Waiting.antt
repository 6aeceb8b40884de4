-- ===== src/Approvals/Waiting.antt =====
-- What the end of a wait for a human decision leaves of the approvals.
use ops_pilot_ai.Base.{
  ℕ, [], ◌∷◌, String, none, some, ◌≡◌, ◌≢◌, ap, arith, ok, inl, inr, Option-cases,
}
use ops_pilot_ai.Domain.Actions.{action_proposal_status_eq}
use ops_pilot_ai.Domain.Approvals.{approval_status_eq}
use ops_pilot_ai.Domain.Investigations.{InvestigationHitlSubjectType, value, subject_value}
use ops_pilot_ai.Storage.Tables
use ops_pilot_ai.Storage.Rows.{
  uuid, text, number, IncidentRecord, InvestigationRunRecord, InvestigationHitlWaitRecord,
}
use ops_pilot_ai.Storage.Database.{Db}
use ops_pilot_ai.Storage.Database.Scope.{Context}
use ops_pilot_ai.Storage.Repositories.{get_incident, get_run, get_waiting_hitl_for_subject}
use ops_pilot_ai.Events.{record_event, about}
use ops_pilot_ai.Waits.{resolved_wait, requeued, resolve_wait, resolve_subject}
use ops_pilot_ai.Approvals.Keeping.{record_event_keeps}

abbrev with_wait : InvestigationHitlWaitRecord → InvestigationRunRecord → Db → Db
with_wait w r db = record db {
  hitl_waits = Tables.save (λ (x : InvestigationHitlWaitRecord). x.id) w db.hitl_waits;
  investigation_runs = Tables.save (λ (x : InvestigationRunRecord). x.id) r db.investigation_runs;
}

module _ (c : Context) (w : InvestigationHitlWaitRecord) (outcome : String) (now : ℕ)
    (db db' : Db) where
  no_run : get_run c w.run_id db ≡ none → resolve_wait c w outcome now db ≢ ok (tt, db')
  unfolding resolve_wait
  no_run n h = ground arith

  no_incident :
      (r : InvestigationRunRecord)
      → get_run c w.run_id db ≡ some r
      → get_incident c w.incident_id db ≡ none
      → resolve_wait c w outcome now db ≢ ok (tt, db')
  unfolding resolve_wait
  no_incident r n m h = ground arith

  wait_event :
      (r : InvestigationRunRecord) (i : IncidentRecord)
      → get_run c w.run_id db ≡ some r
      → get_incident c w.incident_id db ≡ some i
      → resolve_wait c w outcome now db ≡ ok (tt, db')
      → record_event c i "investigation.hitl_wait_resolved" now "user"
          (("runId", uuid r.id)
            ∷ ("waitId", uuid w.id)
            ∷ ("subjectType", text (subject_value w.subject_type))
            ∷ ("subjectId", uuid w.subject_id)
            ∷ ("outcome", text outcome)
            ∷ ("runStatus", text (value (requeued r now).status))
            ∷ ("version", number (requeued r now).version)
            ∷ [])
          (about "investigation_run" r.id (requeued r now).version)
          (with_wait (resolved_wait w outcome now) (requeued r now) db)
        ≡ ok (tt, db')
  unfolding resolve_wait
  wait_event r i n m h = rw (n, m) at h

  resolve_wait_keeps : resolve_wait c w outcome now db ≡ ok (tt, db') → db'.approvals ≡ db.approvals
  resolve_wait_keeps h = elim (Option-cases (get_run c w.run_id db)) [
    | inl n ↦ absurd (no_run n h)
    | inr (r, n) ↦ elim (Option-cases (get_incident c w.incident_id db)) [
      | inl m ↦ absurd (no_incident r n m h)
      | inr (i, m) ↦
          record_event_keeps c i "investigation.hitl_wait_resolved" now "user" _ _
            (with_wait (resolved_wait w outcome now) (requeued r now) db) db' (wait_event r i n m h)
    ]
  ]

module _ (c : Context) (t : InvestigationHitlSubjectType) (i : ℕ) (outcome : String) (now : ℕ)
    (db db' : Db) where
  no_wait :
      get_waiting_hitl_for_subject t i db ≡ none
      → resolve_subject c t i outcome now db ≡ ok (tt, db')
      → db' ≡ db
  unfolding resolve_subject
  no_wait n h = ground arith

  found_wait :
      (w : InvestigationHitlWaitRecord)
      → get_waiting_hitl_for_subject t i db ≡ some w
      → resolve_subject c t i outcome now db ≡ ok (tt, db')
      → resolve_wait c w outcome now db ≡ ok (tt, db')
  unfolding resolve_subject
  found_wait w n h = ground arith

  pub resolve_subject_keeps :
      resolve_subject c t i outcome now db ≡ ok (tt, db') → db'.approvals ≡ db.approvals
  resolve_subject_keeps h = elim (Option-cases (get_waiting_hitl_for_subject t i db)) [
    | inl n ↦ ap (λ (v : Db). v.approvals) (no_wait n h)
    | inr (w, n) ↦ resolve_wait_keeps c w outcome now db db' (found_wait w n h)
  ]
