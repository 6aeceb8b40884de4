-- ===== src/Events.antt =====
-- backend/app/services/events.py: every change is recorded in the incident's history and, in the same
-- transaction, in the outbox.
pub mod Recording
use ops_pilot_ai.Base.{
  ℕ, zero, suc, ◌+◌, String, Option, none, some, List, [], ◌∷◌, ◌++◌, HasEquals, string_eq, ◌==◌,
  if◌then◌else◌, ltb, runtime_error,
}
use ops_pilot_ai.Domain.Security.{ActorId}
use ops_pilot_ai.Storage.Tables
use ops_pilot_ai.Storage.Rows.{
  Value, text, actor, IncidentRecord, IncidentEventRecord, OutboxEventRecord,
}
use ops_pilot_ai.Storage.Database.{Db, Tx, pure, gets, or_raise, modify, fresh, ◌>>=◌, ◌>>◌}
use ops_pilot_ai.Storage.Database.Scope.{Context, actor_or_none, actor_type_or}

abbrev pub Payload : Type 0
Payload = List (String × Value)

-- `payload[k] = v`
unfoldable pub set_item : String → Value → Payload → Payload
set_item k v [] = (k, v) ∷ []
set_item k v ((j, w) ∷ p) = if j == k then (k, v) ∷ p else (j, w) ∷ set_item k v p

abbrev pub audited : Option ActorId → String → Payload → Payload
audited none t p = p
audited (some a) t p = set_item "actorType" (text t) (set_item "actorId" (actor a) p)

-- `aggregate_version or incident.version`
abbrev pub version_or : Option ℕ → ℕ → ℕ
version_or none v = v
version_or (some zero) v = v
version_or (some (suc n)) v = suc n

-- What an event is about: its `aggregate_type`, `aggregate_id` and `aggregate_version`.
pub record Aggregate : Type 0 where
  pub kind : String
  pub id : Option ℕ
  pub version : Option ℕ

-- The defaults of `EventRecorder.record`.
abbrev pub the_incident : Aggregate
the_incident = record { kind = "incident"; id = none; version = none }

abbrev pub about : String → ℕ → ℕ → Aggregate
about kind i v = record { kind = kind; id = some i; version = some v }

abbrev pub id_or : Option ℕ → ℕ → ℕ
id_or none i = i
id_or (some j) i = j

-- `OutboxRepository.add`
unfoldable pub add_outbox_event :
    IncidentRecord → String → ℕ → Payload → Aggregate → Tx OutboxEventRecord
add_outbox_event incident event_type occurred_at payload a = do
  i ← fresh
  n ← gets (λ db. db.next_sequence)
  let row : OutboxEventRecord = record {
    sequence = n;
    event_id = i;
    event_type = event_type;
    aggregate_type = a.kind;
    aggregate_id = id_or a.id incident.id;
    incident_id = incident.id;
    trace_id = incident.trace_id;
    aggregate_version = version_or a.version incident.version;
    payload = payload;
    occurred_at = occurred_at;
    published_at = none;
    publish_attempts = 0;
    next_attempt_at = none;
    dead_lettered_at = none;
    last_error = none;
    last_status_code = none;
  }
  modify (λ db. record db { outbox_events = db.outbox_events ++ row ∷ []; next_sequence = n + 1 })
  pure row

-- The flush of the changes to a row of `incidents`.
abbrev pub save_incident : IncidentRecord → Tx (Unit {0})
save_incident i =
    modify
      (λ db. record db { incidents = Tables.save (λ (r : IncidentRecord). r.id) i db.incidents })

-- `IncidentRepository.advance_event_cursor`
unfoldable pub advance_event_cursor : ℕ → ℕ → Tx ℕ
advance_event_cursor incident_id n = do
  row ← gets (λ db. Tables.get (λ (r : IncidentRecord). r.id) incident_id db.incidents)
  i ← or_raise row runtime_error
  let cursor = if ltb i.event_cursor n then n else i.event_cursor
  save_incident (record i { event_cursor = cursor })
  pure cursor

-- `EventRecorder.record`; the caller has flushed its changes to `incident`.
unfoldable pub record_event :
    Context → IncidentRecord → String → ℕ → String → Payload → Aggregate → Tx (Unit {0})
unfolding add_outbox_event advance_event_cursor
record_event c incident event_type occurred_at actor_type payload a = do
  let row : IncidentEventRecord = record {
    incident_id = incident.id;
    event_type = event_type;
    occurred_at = occurred_at;
    actor_type = actor_type_or c actor_type;
    actor_id = actor_or_none c;
    payload = payload;
  }
  modify (λ db. record db { incident_events = db.incident_events ++ row ∷ [] })
  let audit = audited (actor_or_none c) (actor_type_or c actor_type) payload
  event ← add_outbox_event incident event_type occurred_at audit a
  advance_event_cursor incident.id event.sequence
  pure tt
