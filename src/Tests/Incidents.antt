-- ===== src/Tests/Incidents.antt =====
-- An incident at concrete transitions, and its events.
use ops_pilot_ai.Base.{none, some, [], ◌∷◌, ◌++◌, ◌≡◌, refl, arith, Result, ok, err, application}
use ops_pilot_ai.Domain.Incidents.{
  correlating, cancelled, allowed_transitions, transition_incident, IncidentStatus-discrete,
}
use ops_pilot_ai.Storage.Tables
use ops_pilot_ai.Storage.Rows.{IncidentRecord}
use ops_pilot_ai.Storage.Database.{Db}
use ops_pilot_ai.Storage.Repositories.{get_resource, get_incident}
use ops_pilot_ai.Storage.Database.Scope.{in_scope}
use ops_pilot_ai.Events.{record_event, the_incident}
use ops_pilot_ai.Events.Recording.{
  IsLogged, record_event-IsLogged, outbox_row, history_row, incident_of,
}
use ops_pilot_ai.Incidents.{transition}
use ops_pilot_ai.Incidents.Transitions.{Transitioned, transition-Transitioned, transition_once}
use ops_pilot_ai.Tests.World.{incident, db}

abbrev db_of : Result (Unit {0} × Db) → Db
db_of (ok (u, d)) = d
db_of (err e) = db

abbrev moved : Db
moved = db_of (transition none 100 correlating 1 none 5 db)

transition_returns : transition none 100 correlating 1 none 5 db ≡ ok (tt, moved)
unfolding transition get_incident get_resource in_scope transition_incident allowed_transitions
    IncidentStatus-discrete record_event Tables.get Tables.save
transition_returns = refl

transition_example : Transitioned none 100 correlating 1 5 db moved
transition_example =
    transition-Transitioned none 100 correlating 1 none 5 db moved transition_returns

once_example :
    transition none 100 cancelled 1 (some "ann") 6 moved
    ≡ err (application "INCIDENT_VERSION_CONFLICT" 409)
once_example =
    transition_once none 100 correlating cancelled 1 none (some "ann") 5 6 db moved
      transition_returns

db-IsLogged : IsLogged db
db-IsLogged = record { rising = tt; numbered = tt; cursors = (omega arith, tt) }

abbrev recorded_db : Db
recorded_db = db_of (record_event none incident "note" 5 "user" [] the_incident db)

record_returns :
    record_event none incident "note" 5 "user" [] the_incident db ≡ ok (tt, recorded_db)
unfolding record_event Tables.get Tables.save
record_returns = refl

record_example :
    IsLogged recorded_db
    × (recorded_db.outbox_events
        ≡ [] ++ outbox_row none incident "note" 5 "user" [] the_incident db ∷ [])
    × (recorded_db.incident_events
        ≡ [] ++ history_row none incident "note" 5 "user" [] the_incident db ∷ [])
    × ((j : IncidentRecord) × (incident_of 100 recorded_db ≡ some j) × (j.event_cursor ≡ 1))
record_example =
    record_event-IsLogged none incident "note" 5 "user" [] the_incident db recorded_db db-IsLogged
      record_returns
