-- ===== src/Locks/Storing.antt =====
-- `ResourceLockService`: the lock rows that a call leaves in the database.
use ops_pilot_ai.Base.{
  ℕ, ◌+◌, ◌≤◌, ◌<◌, ◌++◌, false, String, Bool, none, some, ◌≡◌, ◌≢◌, inl, inr, arith, ap, ok, List,
  [], ◌∷◌, nat_eq, Option-cases,
}
use ops_pilot_ai.Storage.Tables
use ops_pilot_ai.Storage.Rows.{
  ActionRequestRecord, ResourceLockRecord, IncidentRecord, uuid, instant,
}
use ops_pilot_ai.Storage.Database.{Db}
use ops_pilot_ai.Storage.Database.Scope.{Context}
use ops_pilot_ai.Storage.Repositories.{get_incident, get_action, get_lock_for_resource}
use ops_pilot_ai.Events.{record_event, about}
use ops_pilot_ai.Events.Recording.{record_event_inversion}
use ops_pilot_ai.Locks.{
  lock_event, take_over, owned_active, release, revalidate_authorization, is_taken, insert_lock,
  find_or_create, acquire,
}

abbrev pub saved : ResourceLockRecord → Db → Db
saved l db = record db { locks = Tables.save (λ (r : ResourceLockRecord). r.id) l db.locks }

-- The lock rows after `l` was written over the row with its identifier.
abbrev pub stored : ResourceLockRecord → Db → List ResourceLockRecord
stored l db = Tables.save (λ (r : ResourceLockRecord). r.id) l db.locks

no_incident :
    (c : Context) (i : ℕ) (l : ResourceLockRecord) (t : String) (now : ℕ) (db : Db)
    {r : Unit {0} × Db}
    → get_incident c l.incident_id db ≡ none
    → lock_event c i l t now db ≢ ok r
unfolding lock_event
no_incident c i l t now db n h = ground arith

records :
    (c : Context) (i : ℕ) (l : ResourceLockRecord) (t : String) (now : ℕ) (db db' : Db)
    (incident : IncidentRecord)
    → get_incident c l.incident_id db ≡ some incident
    → lock_event c i l t now db ≡ ok (tt, db')
    → record_event c incident t now "user"
        (("actionId", uuid i)
          ∷ ("resourceId", uuid l.resource_id)
          ∷ ("expiresAt", instant l.expires_at)
          ∷ [])
        (about "resource_lock" l.id l.fencing_token)
        db
      ≡ ok (tt, db')
unfolding lock_event
records c i l t now db db' incident e h = ground arith

-- The event of a lock leaves the lock rows as they are, and takes an identifier.
lock_event_keeps_locks :
    (c : Context) (i : ℕ) (l : ResourceLockRecord) (t : String) (now : ℕ) (db db' : Db)
    → lock_event c i l t now db ≡ ok (tt, db')
    → (db'.locks ≡ db.locks) × (db.next_id ≤ db'.next_id)
lock_event_keeps_locks c i l t now db db' h =
    elim (Option-cases (get_incident c l.incident_id db)) [
      | inl n ↦ absurd (no_incident c i l t now db n h)
      | inr (incident, e) ↦
          let (j, f, q) =
            record_event_inversion c incident t now "user" _ _ db db'
              (records c i l t now db db' incident e h) in
          (ap (λ (x : Db). x.locks) q, let n = ap (λ (x : Db). x.next_id) q in omega arith)
    ]

take_over_event :
    (c : Context) (action : ActionRequestRecord) (lock l : ResourceLockRecord) (now e : ℕ)
    (again : Bool) (db db' : Db)
    → take_over c action lock now e db ≡ ok ((l, again), db')
    → lock_event c action.id l "resource_lock.acquired" now (saved l db) ≡ ok (tt, db')
unfolding take_over
take_over_event c action lock l now e again db db' h = ground arith

pub take_over_stores :
    (c : Context) (action : ActionRequestRecord) (lock l : ResourceLockRecord) (now e : ℕ)
    (again : Bool) (db db' : Db)
    → take_over c action lock now e db ≡ ok ((l, again), db')
    → (db'.locks ≡ stored l db) × (db.next_id ≤ db'.next_id)
take_over_stores c action lock l now e again db db' h =
    lock_event_keeps_locks c action.id l "resource_lock.acquired" now (saved l db) db'
      (take_over_event c action lock l now e again db db' h)

release_event :
    (c : Context) (i token check now : ℕ) (db db' : Db) (lock l : ResourceLockRecord)
    → owned_active c i token check db ≡ ok (lock, db)
    → release c i token check now db ≡ ok (l, db')
    → lock_event c i l "resource_lock.released" now (saved l db) ≡ ok (tt, db')
unfolding release
release_event c i token check now db db' lock l f h = ground arith

pub release_stores :
    (c : Context) (i token check now : ℕ) (db db' : Db) (lock l : ResourceLockRecord)
    → owned_active c i token check db ≡ ok (lock, db)
    → release c i token check now db ≡ ok (l, db')
    → (db'.locks ≡ stored l db) × (db.next_id ≤ db'.next_id)
release_stores c i token check now db db' lock l f h =
    lock_event_keeps_locks c i l "resource_lock.released" now (saved l db) db'
      (release_event c i token check now db db' lock l f h)

-- The database after a new lock row was inserted.
abbrev inserted : ResourceLockRecord → Db → Db
inserted l db = record db { locks = db.locks ++ l ∷ []; next_id = db.next_id + 1 }

creation_event :
    (c : Context) (lease i : ℕ) (commit : Bool) (p a now : ℕ) (db db' : Db)
    (action : ActionRequestRecord) (l : ResourceLockRecord) (again : Bool)
    → get_action c i db ≡ some action
    → revalidate_authorization c action.policy_decision_id action.approval_id action.parameters p a
        db
      ≡ ok (tt, db)
    → get_lock_for_resource c action.resource_id db ≡ none
    → is_taken action.resource_id db ≡ false
    → acquire c lease i commit p a now db ≡ ok ((l, again), db')
    → (l.id ≡ db.next_id)
      × (lock_event c action.id l "resource_lock.acquired" now (inserted l db) ≡ ok (tt, db'))
unfolding acquire find_or_create insert_lock
creation_event c lease i commit p a now db db' action l again g f s t h = ground arith

pub creation_stores :
    (c : Context) (lease i : ℕ) (commit : Bool) (p a now : ℕ) (db db' : Db)
    (action : ActionRequestRecord) (l : ResourceLockRecord) (again : Bool)
    → get_action c i db ≡ some action
    → revalidate_authorization c action.policy_decision_id action.approval_id action.parameters p a
        db
      ≡ ok (tt, db)
    → get_lock_for_resource c action.resource_id db ≡ none
    → is_taken action.resource_id db ≡ false
    → acquire c lease i commit p a now db ≡ ok ((l, again), db')
    → (l.id ≡ db.next_id) × (db'.locks ≡ db.locks ++ l ∷ []) × (db.next_id < db'.next_id)
creation_stores c lease i commit p a now db db' action l again g f s t h =
    let (e, v) = creation_event c lease i commit p a now db db' action l again g f s t h in
    let (k, n) =
      lock_event_keeps_locks c action.id l "resource_lock.acquired" now (inserted l db) db' v in
    (e, k, omega arith)
