-- ===== src/Waits.antt =====
-- backend/app/services/investigation_hitl.py: the end of a wait for a human decision
-- (`resolve_subject`).
use ops_pilot_ai.Base.{
  ℕ, ◌+◌, String, Option, none, some, [], ◌∷◌, ◌==◌, application, if◌then◌else◌,
}
use ops_pilot_ai.Domain.Investigations.{
  InvestigationRunStatus, run_status_eq, value, InvestigationHitlSubjectType, subject_value,
  InvestigationHitlWaitStatus,
}
use ops_pilot_ai.Storage.Tables
use ops_pilot_ai.Storage.Rows.{
  text, uuid, number, InvestigationRunRecord, InvestigationHitlWaitRecord,
}
use ops_pilot_ai.Storage.Database.{Tx, pure, gets, or_raise, modify, ◌>>=◌, ◌>>◌}
use ops_pilot_ai.Storage.Database.Scope.{Context}
use ops_pilot_ai.Storage.Repositories.{get_incident, get_run, get_waiting_hitl_for_subject}
use ops_pilot_ai.Events.{record_event, about}

abbrev pub save_wait : InvestigationHitlWaitRecord → Tx (Unit {0})
save_wait w = modify (λ db. record db {
  hitl_waits = Tables.save (λ (r : InvestigationHitlWaitRecord). r.id) w db.hitl_waits;
})

abbrev pub save_run : InvestigationRunRecord → Tx (Unit {0})
save_run r = modify (λ db. record db {
  investigation_runs = Tables.save (λ (x : InvestigationRunRecord). x.id) r db.investigation_runs;
})

abbrev pub resolved_wait : InvestigationHitlWaitRecord → String → ℕ → InvestigationHitlWaitRecord
resolved_wait w outcome now = record w {
  status = InvestigationHitlWaitStatus.resolved;
  outcome = some outcome;
  resolved_at = some now;
  version = w.version + 1;
  updated_at = now;
}

-- A paused run goes back to the queue; `transition_investigation_run` is not asked.
abbrev pub requeued : InvestigationRunRecord → ℕ → InvestigationRunRecord
requeued r now =
    if r.status == InvestigationRunStatus.paused
    then record r {
      status = InvestigationRunStatus.queued;
      runtime_owner = none;
      runtime_lease_expires_at = none;
      last_error_code = none;
      version = r.version + 1;
      updated_at = now;
    }
    else r

-- `resolve_subject` for a wait that was found.
unfoldable pub resolve_wait : Context → InvestigationHitlWaitRecord → String → ℕ → Tx (Unit {0})
resolve_wait c w outcome now = do
  found ← gets (get_run c w.run_id)
  run ← or_raise found (application "INVESTIGATION_RUN_NOT_FOUND" 404)
  holder ← gets (get_incident c w.incident_id)
  incident ← or_raise holder (application "INCIDENT_NOT_FOUND" 404)
  save_wait (resolved_wait w outcome now)
  save_run (requeued run now)
  record_event c incident "investigation.hitl_wait_resolved" now "user"
      (("runId", uuid run.id)
        ∷ ("waitId", uuid w.id)
        ∷ ("subjectType", text (subject_value w.subject_type))
        ∷ ("subjectId", uuid w.subject_id)
        ∷ ("outcome", text outcome)
        ∷ ("runStatus", text (value (requeued run now).status))
        ∷ ("version", number (requeued run now).version)
        ∷ [])
      (about "investigation_run" run.id (requeued run now).version)

abbrev resolve_if_found : Context → String → ℕ → Option InvestigationHitlWaitRecord → Tx (Unit {0})
resolve_if_found c outcome now none = pure tt
resolve_if_found c outcome now (some w) = resolve_wait c w outcome now

-- `resolve_subject`; its result is not used. The wait that is found has the subject of the call.
unfoldable pub resolve_subject :
    Context → InvestigationHitlSubjectType → ℕ → String → ℕ → Tx (Unit {0})
resolve_subject c subject_type subject_id outcome now = do
  wait ← gets (get_waiting_hitl_for_subject subject_type subject_id)
  resolve_if_found c outcome now wait
