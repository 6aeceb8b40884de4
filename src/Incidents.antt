-- ===== src/Incidents.antt =====
-- backend/app/services/incidents.py
pub mod Transitions
use ops_pilot_ai.Base.{
  ℕ, ◌+◌, String, not, Option, none, some, List, [], ◌∷◌, ◌++◌, nat_eq, ◌==◌, application,
  except_value_error,
}
use ops_pilot_ai.Domain.Incidents.{IncidentStatus, detected, Severity, value, transition_incident}
use ops_pilot_ai.Domain.Security.{ActorId}
use ops_pilot_ai.Storage.Rows.{Value, text, number, null, IncidentRecord}
use ops_pilot_ai.Storage.Database.{
  Db, Tx, pure, gets, or_raise, raise_if, lift, modify, fresh, ◌>>=◌, ◌>>◌,
}
use ops_pilot_ai.Storage.Database.Scope.{Context}
use ops_pilot_ai.Storage.Repositories.{get_resource, get_incident}
use ops_pilot_ai.Events.{record_event, save_incident, the_incident}

-- `IncidentRepository.create`, with the defaults of the columns
unfoldable pub insert_incident : String → Severity → ℕ → Option String → ℕ → Tx IncidentRecord
insert_incident title severity resource_id owner now = do
  i ← fresh
  trace ← fresh
  let row : IncidentRecord = record {
    id = i;
    title = title;
    status = detected;
    severity = severity;
    resource_id = resource_id;
    owner = owner;
    version = 1;
    event_cursor = 0;
    trace_id = trace;
    autonomy_level = "L1";
    replan_count = 0;
    tool_budget_used = 0;
    tool_budget_limit = 30;
    observability_runner_id = none;
    observability_lost_at = none;
    updated_at = now;
  }
  modify (λ db. record db { incidents = db.incidents ++ row ∷ [] })
  pure row

-- `IncidentService.create`
unfoldable pub create : Context → String → Severity → ℕ → Option String → ℕ → Tx ℕ
unfolding insert_incident
create c title severity resource_id owner now = do
  resource ← gets (get_resource c resource_id)
  or_raise resource (application "RESOURCE_NOT_FOUND" 404)
  incident ← insert_incident title severity resource_id owner now
  record_event c incident "incident.created" now "user"
      (("status", text (value incident.status)) ∷ []) the_incident
  pure incident.id

abbrev pub name_or_null : Option String → Value
name_or_null none = null
name_or_null (some s) = text s

-- `IncidentService.transition`
unfoldable pub transition : Context → ℕ → IncidentStatus → ℕ → Option String → ℕ → Tx (Unit {0})
transition c incident_id target expected_version actor_id now = do
  found ← gets (get_incident c incident_id)
  incident ← or_raise found (application "INCIDENT_NOT_FOUND" 404)
  raise_if (not (incident.version == expected_version))
      (application "INCIDENT_VERSION_CONFLICT" 409)
  let previous = incident.status
  status ← lift (
      except_value_error (transition_incident previous target)
        (application "INVALID_INCIDENT_TRANSITION" 409))
  let changed : IncidentRecord = record incident {
    status = status;
    version = incident.version + 1;
    updated_at = now;
  }
  save_incident changed
  record_event c changed "incident.status_changed" now "user"
      (("from", text (value previous))
        ∷ ("to", text (value target))
        ∷ ("actor_id", name_or_null actor_id)
        ∷ ("version", number changed.version)
        ∷ [])
      the_incident
