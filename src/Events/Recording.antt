-- ===== src/Events/Recording.antt =====
-- What `EventRecorder.record` writes.
use ops_pilot_ai.Base.{
  ℕ, ◌+◌, ◌<◌, String, Option, none, some, List, [], ◌∷◌, ◌++◌, ◌≡◌, refl, arith, ok, err,
  runtime_error, ltb, if◌then◌else◌, eqb, ◌≢◌, All, All-append, All-map, Option-cases, inl, inr,
}
use ops_pilot_ai.Storage.Tables
use ops_pilot_ai.Storage.Rows.{IncidentRecord, IncidentEventRecord, OutboxEventRecord}
use ops_pilot_ai.Storage.Database.{Db}
use ops_pilot_ai.Storage.Database.Scope.{Context, actor_or_none, actor_type_or}
use ops_pilot_ai.Events.{Payload, Aggregate, audited, id_or, version_or, record_event}

abbrev pub incident_of : ℕ → Db → Option IncidentRecord
incident_of i db = Tables.get (λ (r : IncidentRecord). r.id) i db.incidents

module _ (c : Context) (incident : IncidentRecord) (event_type : String) (occurred_at : ℕ)
    (actor_type : String) (payload : Payload) (a : Aggregate) (db : Db) where
  -- The row that goes to the outbox.
  abbrev pub outbox_row : OutboxEventRecord
  outbox_row = record {
    sequence = db.next_sequence;
    event_id = db.next_id;
    event_type = event_type;
    aggregate_type = a.kind;
    aggregate_id = id_or a.id incident.id;
    incident_id = incident.id;
    trace_id = incident.trace_id;
    aggregate_version = version_or a.version incident.version;
    payload = audited (actor_or_none c) (actor_type_or c actor_type) payload;
    occurred_at = occurred_at;
    published_at = none;
    publish_attempts = 0;
    next_attempt_at = none;
    dead_lettered_at = none;
    last_error = none;
    last_status_code = none;
  }

  -- The row that goes to the history of the incident.
  abbrev pub history_row : IncidentEventRecord
  history_row = record {
    incident_id = incident.id;
    event_type = event_type;
    occurred_at = occurred_at;
    actor_type = actor_type_or c actor_type;
    actor_id = actor_or_none c;
    payload = payload;
  }

  -- The database after the call, where `j` is the stored row of the incident.
  abbrev pub recorded : IncidentRecord → Db
  recorded j = record db {
    incidents =
        Tables.save (λ (r : IncidentRecord). r.id)
          (record j {
            event_cursor =
                if ltb j.event_cursor db.next_sequence then db.next_sequence else j.event_cursor;
          })
          db.incidents;
    incident_events = db.incident_events ++ history_row ∷ [];
    outbox_events = db.outbox_events ++ outbox_row ∷ [];
    next_id = db.next_id + 1;
    next_sequence = db.next_sequence + 1;
  }

  pub record_event_stored :
      (j : IncidentRecord)
      → incident_of incident.id db ≡ some j
      → record_event c incident event_type occurred_at actor_type payload a db ≡ ok (tt, recorded j)
  unfolding record_event
  record_event_stored j h = ground arith

  pub record_event_missing :
      incident_of incident.id db ≡ none
      → record_event c incident event_type occurred_at actor_type payload a db ≡ err runtime_error
  unfolding record_event
  record_event_missing h = ground arith

  -- A call that returns found the row, and left `recorded`.
  pub record_event_inversion :
      (db' : Db)
      → record_event c incident event_type occurred_at actor_type payload a db ≡ ok (tt, db')
      → (j : IncidentRecord) × (incident_of incident.id db ≡ some j) × (db' ≡ recorded j)
  record_event_inversion db' h = elim (Option-cases (incident_of incident.id db)) [
    | inl n ↦ cc (record_event_missing n, h)
    | inr (j, e) ↦ (j, e, cc (record_event_stored j e, h))
  ]

-- The sequence numbers rise along the outbox.
abbrev pub Rises : List OutboxEventRecord → Type 0
Rises [] = Unit
Rises (e ∷ es) = All (λ (f : OutboxEventRecord). e.sequence < f.sequence) es × Rises es

-- The state of the two logs that the cursors of the incidents point into.
pub record IsLogged (db : Db) : Type 0 where
  pub rising : Rises db.outbox_events
  pub numbered : All (λ (e : OutboxEventRecord). e.sequence < db.next_sequence) db.outbox_events
  pub cursors : All (λ (i : IncidentRecord). i.event_cursor < db.next_sequence) db.incidents

Rises-append :
    (es : List OutboxEventRecord) (e : OutboxEventRecord)
    → Rises es
    → All (λ (f : OutboxEventRecord). f.sequence < e.sequence) es
    → Rises (es ++ (e ∷ []))
Rises-append [] e h k = (tt, tt)
Rises-append (x ∷ es) e h k = (
  All-append (λ (f : OutboxEventRecord). x.sequence < f.sequence) es e h.0 k.0,
  Rises-append es e h.1 k.1,
)

-- One event more, with the next number, and the cursor of one incident moved to it.
IsLogged-after :
    (db : Db) (j : IncidentRecord) (e : OutboxEventRecord) (history : List IncidentEventRecord)
    (n : ℕ)
    → IsLogged db
    → e.sequence ≡ db.next_sequence
    → j.event_cursor ≡ db.next_sequence
    → IsLogged (record db {
      incidents = Tables.save (λ (r : IncidentRecord). r.id) j db.incidents;
      incident_events = history;
      outbox_events = db.outbox_events ++ e ∷ [];
      next_id = n;
      next_sequence = db.next_sequence + 1;
    })
IsLogged-after db j e history n v p q = record {
  rising = Rises-append db.outbox_events e v.rising (rw p v.numbered);
  numbered =
      All-append (λ (f : OutboxEventRecord). f.sequence < db.next_sequence + 1) db.outbox_events e
        (All-map (λ (f : OutboxEventRecord). f.sequence < db.next_sequence)
          (λ (f : OutboxEventRecord). f.sequence < db.next_sequence + 1) (λ f b. omega (arith, b))
          db.outbox_events v.numbered)
        (omega arith);
  cursors =
      Tables.All-save (λ (r : IncidentRecord). r.id)
        (λ (i : IncidentRecord). i.event_cursor < db.next_sequence + 1) j db.incidents
        (All-map (λ (i : IncidentRecord). i.event_cursor < db.next_sequence)
          (λ (i : IncidentRecord). i.event_cursor < db.next_sequence + 1) (λ i b. omega (arith, b))
          db.incidents v.cursors)
        (omega arith);
}

pub stored_cursor :
    (db : Db) (i : ℕ) (j : IncidentRecord)
    → IsLogged db
    → incident_of i db ≡ some j
    → j.event_cursor < db.next_sequence
stored_cursor db i j v e =
    Tables.All-get (λ (r : IncidentRecord). r.id)
      (λ (r : IncidentRecord). r.event_cursor < db.next_sequence) i db.incidents j v.cursors e

-- A recorded event goes to the end of the outbox, under a number above all others, and to the end
-- of the incident's history; the cursor of the incident then is that number, and the logs stay
-- in order.
pub record_event-IsLogged :
    (c : Context) (incident : IncidentRecord) (event_type : String) (occurred_at : ℕ)
    (actor_type : String) (payload : Payload) (a : Aggregate) (db db' : Db)
    → IsLogged db
    → record_event c incident event_type occurred_at actor_type payload a db ≡ ok (tt, db')
    → IsLogged db'
      × (db'.outbox_events
          ≡ db.outbox_events
            ++ outbox_row c incident event_type occurred_at actor_type payload a db ∷ [])
      × (db'.incident_events
          ≡ db.incident_events
            ++ history_row c incident event_type occurred_at actor_type payload a db ∷ [])
      × ((j : IncidentRecord) × (incident_of incident.id db' ≡ some j)
          × (j.event_cursor ≡ db.next_sequence))
record_event-IsLogged c incident event_type occurred_at actor_type payload a db db' v h =
    let (j, e, q) =
      record_event_inversion c incident event_type occurred_at actor_type payload a db db' h in
    let b = stored_cursor db incident.id j v e in
    let moved : IncidentRecord = record j {
      event_cursor =
          if ltb j.event_cursor db.next_sequence then db.next_sequence else j.event_cursor;
    } in
    rw q (
      IsLogged-after db moved (outbox_row c incident event_type occurred_at actor_type payload a db)
          (db.incident_events
            ++ history_row c incident event_type occurred_at actor_type payload a db ∷ [])
          (db.next_id + 1) v refl (ground (arith, b)),
      refl,
      refl,
      (
        moved,
        ground (
          arith,
          Tables.get-save (λ (r : IncidentRecord). r.id) moved incident.id db.incidents,
          Tables.get_key (λ (r : IncidentRecord). r.id) incident.id db.incidents j e,
        ),
        ground (arith, b),
      ),
    )

-- The flush of a changed row, which precedes the recording of an event about it.
abbrev pub flushed : IncidentRecord → Db → Db
flushed m db = record db { incidents = Tables.save (λ (r : IncidentRecord). r.id) m db.incidents }

-- `db'` is `db` with `m` for the row `i`, its cursor moved, and with more in the two logs.
pub record Published (i : ℕ) (m : IncidentRecord) (db db' : Db) : Type 0 where
  pub cursor : ℕ
  pub stored : incident_of i db' ≡ some (record m { event_cursor = cursor })
  pub others : (k : ℕ) → k ≢ i → incident_of k db' ≡ incident_of k db
  pub rest : db' ≡ record db {
    incidents = db'.incidents;
    incident_events = db'.incident_events;
    outbox_events = db'.outbox_events;
    next_id = db'.next_id;
    next_sequence = db'.next_sequence;
  }

found_after_save :
    (i k : ℕ) (m x : IncidentRecord) (rows : List IncidentRecord)
    → m.id ≡ i
    → Tables.get (λ (r : IncidentRecord). r.id) i rows ≡ some x
    → Tables.get
        (λ (r : IncidentRecord). r.id)
        k
        (Tables.save (λ (r : IncidentRecord). r.id) m rows)
      ≡ (if eqb i k then some m else Tables.get (λ (r : IncidentRecord). r.id) k rows)
found_after_save i k m x rows p h =
    ground (arith, Tables.get-save (λ (r : IncidentRecord). r.id) m k rows)

pub flush_and_record :
    (c : Context) (m : IncidentRecord) (event_type : String) (occurred_at : ℕ) (actor_type : String)
    (payload : Payload) (a : Aggregate) (db db' : Db) (i : ℕ) (x : IncidentRecord)
    → m.id ≡ i
    → incident_of i db ≡ some x
    → record_event c m event_type occurred_at actor_type payload a (flushed m db) ≡ ok (tt, db')
    → Published i m db db'
flush_and_record c m event_type occurred_at actor_type payload a db db' i x p f h =
    let n = db.next_sequence in
    let cursor : ℕ = if ltb m.event_cursor n then n else m.event_cursor in
    let moved : IncidentRecord = record m { event_cursor = cursor } in
    let rows = Tables.save (λ (r : IncidentRecord). r.id) m db.incidents in
    let found = λ (k : ℕ). found_after_save i k m x db.incidents p f in
    let own : incident_of m.id (flushed m db) ≡ some m = ground (arith, found m.id) in
    let twice = λ (k : ℕ). found_after_save i k moved m rows p (ground (arith, found i)) in
    let w =
      record_event_stored c m event_type occurred_at actor_type payload a (flushed m db) m own in
    let q : db' ≡ recorded c m event_type occurred_at actor_type payload a (flushed m db) m =
      cc (h, w) in
    rw q (record {
      cursor = cursor;
      stored = ground (arith, twice i);
      others = λ k ne. ground (arith, twice k, found k);
      rest = refl;
    })
