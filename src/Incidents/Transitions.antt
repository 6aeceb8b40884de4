-- ===== src/Incidents/Transitions.antt =====
-- `IncidentService.transition`: what a change of status requires and leaves.
use ops_pilot_ai.Base.{
  ℕ, ◌+◌, String, true, Option, none, some, [], ◌∷◌, ◌≡◌, ◌≢◌, refl, arith, ok, err, application,
  contains, ap,
}
use ops_pilot_ai.Domain.Incidents.{
  IncidentStatus, value, allowed_transitions, transition_incident, incident_status_eq,
}
use ops_pilot_ai.Storage.Tables
use ops_pilot_ai.Storage.Rows.{text, number, IncidentRecord}
use ops_pilot_ai.Storage.Database.{Db}
use ops_pilot_ai.Storage.Database.Scope.{Context}
use ops_pilot_ai.Storage.Repositories.{get_incident}
use ops_pilot_ai.Events.{Payload, record_event, the_incident}
use ops_pilot_ai.Events.Recording.{incident_of, flushed, flush_and_record}
use ops_pilot_ai.Incidents.{transition, name_or_null}

-- The row that `transition` writes.
abbrev moved_to : IncidentStatus → ℕ → IncidentRecord → IncidentRecord
moved_to target now i = record i { status = target; version = i.version + 1; updated_at = now }

abbrev change_payload : IncidentRecord → IncidentStatus → Option String → Payload
change_payload i target actor_id =
    ("from", text (value i.status))
    ∷ ("to", text (value target))
    ∷ ("actor_id", name_or_null actor_id)
    ∷ ("version", number (i.version + 1))
    ∷ []

module _ (c : Context) (incident_id : ℕ) (target : IncidentStatus) (expected_version : ℕ)
    (actor_id : Option String) (now : ℕ) (db db' : Db) where
  transition_finds :
      transition c incident_id target expected_version actor_id now db ≡ ok (tt, db')
      → (i : IncidentRecord) × (get_incident c incident_id db ≡ some i)
  unfolding transition
  transition_finds h = ground arith

  transition_steps :
      (i : IncidentRecord)
      → get_incident c incident_id db ≡ some i
      → transition c incident_id target expected_version actor_id now db ≡ ok (tt, db')
      → (i.version ≡ expected_version)
        × (contains (allowed_transitions i.status) target ≡ true)
        × (record_event c
              (moved_to target now i)
              "incident.status_changed"
              now
              "user"
              (change_payload i target actor_id)
              the_incident
              (flushed (moved_to target now i) db)
            ≡ ok (tt, db'))
  unfolding transition transition_incident
  transition_steps i e h = ground arith

pub get_incident-stored :
    (c : Context) (i : ℕ) (db : Db) (x : IncidentRecord)
    → get_incident c i db ≡ some x
    → (incident_of i db ≡ some x) × (x.id ≡ i)
unfolding get_incident
get_incident-stored c i db x h =
    (ground arith, Tables.get_key (λ (r : IncidentRecord). r.id) i db.incidents x (ground arith))

-- What a change of status that went through has found and left.
pub record Transitioned (c : Context) (incident_id : ℕ) (target : IncidentStatus)
    (expected_version now : ℕ) (db db' : Db) : Type 0 where
  pub before : IncidentRecord
  pub after : IncidentRecord
  pub visible : get_incident c incident_id db ≡ some before
  pub version : before.version ≡ expected_version
  pub allowed : contains (allowed_transitions before.status) target ≡ true
  pub stored : incident_of incident_id db' ≡ some after
  pub target_status : after.status ≡ target
  pub next_version : after.version ≡ expected_version + 1
  pub same_resource : after.resource_id ≡ before.resource_id
  pub others : (k : ℕ) → k ≢ incident_id → incident_of k db' ≡ incident_of k db
  pub resources : db'.resources ≡ db.resources

-- A change of status that goes through found the incident in the caller's scope, at the expected
-- version and at a status that allows the target; it leaves the target status and the next version,
-- and no other incident is touched.
pub transition-Transitioned :
    (c : Context) (incident_id : ℕ) (target : IncidentStatus) (expected_version : ℕ)
    (actor_id : Option String) (now : ℕ) (db db' : Db)
    → transition c incident_id target expected_version actor_id now db ≡ ok (tt, db')
    → Transitioned c incident_id target expected_version now db db'
transition-Transitioned c incident_id target v actor_id now db db' h =
    let (i, e) = transition_finds c incident_id target v actor_id now db db' h in
    let (p, a, w) = transition_steps c incident_id target v actor_id now db db' i e h in
    let (f, d) = get_incident-stored c incident_id db i e in
    let m = moved_to target now i in
    let s =
      flush_and_record c m "incident.status_changed" now "user" (change_payload i target actor_id)
        the_incident db db' incident_id i d f w in
    record {
      before = i;
      after = record m { event_cursor = s.cursor };
      visible = e;
      version = p;
      allowed = a;
      stored = s.stored;
      target_status = refl;
      next_version = ap (λ (n : ℕ). n + 1) p;
      same_resource = refl;
      others = s.others;
      resources = ap (λ (x : Db). x.resources) s.rest;
    }

-- Who sees an incident depends on the resources and on its own resource only.
pub get_incident_same :
    (c : Context) (i : ℕ) (db db' : Db) (b a : IncidentRecord)
    → get_incident c i db ≡ some b
    → incident_of i db' ≡ some a
    → a.resource_id ≡ b.resource_id
    → db'.resources ≡ db.resources
    → get_incident c i db' ≡ some a
unfolding get_incident
get_incident_same none i db db' b a h s r t = ground arith
get_incident_same (some p) i db db' b a h s r t = ground arith

version_conflict :
    (c : Context) (incident_id : ℕ) (target : IncidentStatus) (v : ℕ) (actor_id : Option String)
    (now : ℕ) (db : Db) (a : IncidentRecord)
    → get_incident c incident_id db ≡ some a
    → a.version ≢ v
    → transition c incident_id target v actor_id now db
      ≡ err (application "INCIDENT_VERSION_CONFLICT" 409)
unfolding transition
version_conflict c incident_id target v actor_id now db a e n = ground arith

-- Of two changes of one incident's status that were both asked for at the same version, the one
-- that comes second is refused as a conflict, whatever its target.
pub transition_once :
    (c : Context) (incident_id : ℕ) (target target' : IncidentStatus) (expected_version : ℕ)
    (actor_id actor_id' : Option String) (now now' : ℕ) (db db' : Db)
    → transition c incident_id target expected_version actor_id now db ≡ ok (tt, db')
    → transition c incident_id target' expected_version actor_id' now' db'
      ≡ err (application "INCIDENT_VERSION_CONFLICT" 409)
transition_once c incident_id target target' v actor_id actor_id' now now' db db' h =
    let t = transition-Transitioned c incident_id target v actor_id now db db' h in
    version_conflict c incident_id target' v actor_id' now' db' t.after
      (get_incident_same c incident_id db db' t.before t.after t.visible t.stored t.same_resource
        t.resources)
      (omega (arith, t.next_version))
