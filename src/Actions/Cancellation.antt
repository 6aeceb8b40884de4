-- ===== src/Actions/Cancellation.antt =====
-- `ActionRequestService.cancel`: a cancelled action and its lock.
use ops_pilot_ai.Base.{
  ℕ, String, true, Option, none, some, ◌≡◌, ◌≢◌, ◌∙◌, refl, ap, arith, ok, ◌==◌, inl, inr,
  Option-cases, nat_eq, All, In, ◌⊎◌,
}
use ops_pilot_ai.Domain.Actions.{ready, action_request_status_eq}
use ops_pilot_ai.Storage.Tables
use ops_pilot_ai.Storage.Rows.{ActionRequestRecord, ResourceLockRecord, IncidentRecord}
use ops_pilot_ai.Storage.Database.{Db, >>=-eq-ok}
use ops_pilot_ai.Storage.Database.Scope.{Context, actor_or_system}
use ops_pilot_ai.Storage.Repositories.{get_action, get_incident, get_lock_for_action}
use ops_pilot_ai.Events.{record_event}
use ops_pilot_ai.Events.Recording.{record_event_inversion}
use ops_pilot_ai.Locks.{ended, release_for_action}
use ops_pilot_ai.Actions.{cancelled_action, record_cancelled, record_released, cancel}
use ops_pilot_ai.Actions.Outcomes.{
  IsDropped, IsLetGo, IsHeld, cancelled_action-IsDropped, ended-IsLetGo, found_lock-IsHeld,
  no_lock-IsHeld,
}

-- The database after the flush of the cancelled action.
abbrev saved_action : ActionRequestRecord → Db → Db
saved_action a db = record db {
  actions = Tables.save (λ (r : ActionRequestRecord). r.id) a db.actions;
}

-- The lock rows after the lease of one of them, if any, has ended.
abbrev locks_after : Option ResourceLockRecord → ℕ → Context → Db → Db
locks_after none now c db = db
locks_after (some lock) now c db = record db {
  locks =
      Tables.save (λ (r : ResourceLockRecord). r.id) (ended lock now (actor_or_system c)) db.locks;
}

abbrev ended_lock : Option ResourceLockRecord → ℕ → Context → Option ResourceLockRecord
ended_lock none now c = none
ended_lock (some lock) now c = some (ended lock now (actor_or_system c))

record_event_keeps :
    (c : Context) (incident : IncidentRecord) (row : ActionRequestRecord) (reason : String)
    (now : ℕ) (o : Option ResourceLockRecord) (db db' : Db)
    → record_cancelled c incident row reason now o db ≡ ok (tt, db')
    → (db'.actions ≡ db.actions) × (db'.locks ≡ db.locks)
unfolding record_cancelled
record_event_keeps c incident row reason now none db db' h =
    let (u, d, e, f) =
      >>=-eq-ok (record_event c incident "action.cancelled" now _ _ _)
        (λ _. record_released c incident row.id now none) h in
    let (j, m, q) = record_event_inversion c incident "action.cancelled" now _ _ _ db d e in
    let k : d ≡ db' = ground (arith, f) in
    rw (← k) (ap (λ (x : Db). x.actions) q, ap (λ (x : Db). x.locks) q)
record_event_keeps c incident row reason now (some lock) db db' h =
    let (u, d, e, f) =
      >>=-eq-ok (record_event c incident "action.cancelled" now _ _ _)
        (λ _. record_released c incident row.id now (some lock)) h in
    let (j, m, q) = record_event_inversion c incident "action.cancelled" now _ _ _ db d e in
    let (k, v, w) = record_event_inversion c incident "resource_lock.released" now _ _ _ d db' f in
    (
      ap (λ (x : Db). x.actions) w ∙ ap (λ (x : Db). x.actions) q,
      ap (λ (x : Db). x.locks) w ∙ ap (λ (x : Db). x.locks) q,
    )

module _ (c : Context) (i v : ℕ) (reason : String) (now : ℕ) (db : Db) where
  no_action :
      {x : ActionRequestRecord × Db} → get_action c i db ≡ none → cancel c i v reason now db ≢ ok x
  unfolding cancel
  no_action n h = ground arith

  without_incident :
      (action : ActionRequestRecord) {x : ActionRequestRecord × Db}
      → get_action c i db ≡ some action
      → get_incident c action.incident_id db ≡ none
      → cancel c i v reason now db ≢ ok x
  unfolding cancel
  without_incident action g n h = ground arith

  cancel_steps :
      (action row : ActionRequestRecord) (incident : IncidentRecord) (o : Option ResourceLockRecord)
      (db' : Db)
      → get_action c i db ≡ some action
      → get_incident c action.incident_id db ≡ some incident
      → get_lock_for_action c action.id (saved_action (cancelled_action c action reason now) db) ≡ o
      → cancel c i v reason now db ≡ ok (row, db')
      → (action.version ≡ v)
        × ((action.status == ready) ≡ true)
        × (row ≡ cancelled_action c action reason now)
        × (record_cancelled c incident
              (cancelled_action c action reason now)
              reason
              now
              (ended_lock o now c)
              (locks_after o now c (saved_action (cancelled_action c action reason now) db))
            ≡ ok (tt, db'))
  unfolding cancel release_for_action
  cancel_steps action row incident none db' g n k h = ground arith
  cancel_steps action row incident (some lock) db' g n k h = ground arith

-- What becomes of the locks of the action: either no row is held for it, and the table is the same;
-- or the lease of such a row is over.
abbrev AreLetGo : Context → ℕ → ℕ → Db → Db → Type 0
AreLetGo c i now db db' =
    (All (λ (l : ResourceLockRecord). ¬ (IsHeld c i l)) db.locks × (db'.locks ≡ db.locks))
    ⊎ ((lock : ResourceLockRecord) × (over : ResourceLockRecord) × In lock db.locks
        × IsHeld c i lock
        × IsLetGo c lock over now
        × (db'.locks ≡ Tables.save (λ (r : ResourceLockRecord). r.id) over db.locks))

-- What a call of `cancel` did.
pub record IsCancelled (c : Context) (i v : ℕ) (reason : String) (now : ℕ) (db db' : Db)
    (row : ActionRequestRecord) : Type 0 where
  pub action : ActionRequestRecord
  pub stored : get_action c i db ≡ some action
  pub current : action.version ≡ v
  pub was_ready : action.status ≡ ready
  pub written : IsDropped c action row reason now
  pub actions : db'.actions ≡ Tables.save (λ (r : ActionRequestRecord). r.id) row db.actions
  pub locks : AreLetGo c i now db db'

lock_cases :
    (c : Context) (i now : ℕ) (db db' : Db) (o : Option ResourceLockRecord)
    → get_lock_for_action c i db ≡ o
    → db'.locks ≡ (locks_after o now c db).locks
    → AreLetGo c i now db db'
lock_cases c i now db db' none g h = inl (no_lock-IsHeld c i db g, h)
lock_cases c i now db db' (some lock) g h =
    let (m, k) = found_lock-IsHeld c i db lock g in
    inr (lock, ended lock now (actor_or_system c), m, k, ended-IsLetGo c lock now, h)

same_lock :
    (c : Context) (i : ℕ) (a : ActionRequestRecord) (db : Db)
    → get_lock_for_action c i (saved_action a db) ≡ get_lock_for_action c i db
unfolding get_lock_for_action
same_lock c i a db = refl

pub found_action-id :
    (c : Context) (i : ℕ) (db : Db) (a : ActionRequestRecord)
    → get_action c i db ≡ some a
    → a.id ≡ i
unfolding get_action
found_action-id c i db a h =
    ground (arith, Tables.get_key (λ (x : ActionRequestRecord). x.id) i db.actions a)

locks_elsewhere :
    (o : Option ResourceLockRecord) (now : ℕ) (c : Context) (a : ActionRequestRecord) (db : Db)
    → ((locks_after o now c (saved_action a db)).locks ≡ (locks_after o now c db).locks)
      × ((locks_after o now c (saved_action a db)).actions ≡ (saved_action a db).actions)
locks_elsewhere none now c a db = (refl, refl)
locks_elsewhere (some lock) now c a db = (refl, refl)

-- A call of `cancel` that returns found the action READY and at the expected version; it stores
-- the row that it returns, which asks for the same action and is CANCELLED at the next version,
-- for the reason, signed by the caller at the time of the call. Either no unreleased lock row
-- of the action is in an environment that the caller sees, and the locks are as they were; or
-- the lease of such a row is over: the row is released by the caller at that time, which is
-- also its new expiry, and keeps its action and its token.
pub cancel-IsCancelled :
    (c : Context) (i v : ℕ) (reason : String) (now : ℕ) (db db' : Db) (row : ActionRequestRecord)
    → cancel c i v reason now db ≡ ok (row, db')
    → IsCancelled c i v reason now db db' row
cancel-IsCancelled c i v reason now db db' row h = elim (Option-cases (get_action c i db)) [
  | inl n ↦ absurd (no_action c i v reason now db n h)
  | inr (action, g) ↦ elim (Option-cases (get_incident c action.incident_id db)) [
    | inl n ↦ absurd (without_incident c i v reason now db action g n h)
    | inr (incident, n) ↦
        let k = same_lock c action.id (cancelled_action c action reason now) db in
        let o = get_lock_for_action c action.id db in
        let (a, b, e, f) = cancel_steps c i v reason now db action row incident o db' g n k h in
        let (s, t) =
          record_event_keeps c incident row reason now (ended_lock o now c)
            (locks_after o now c (saved_action row db)) db' (rw e f) in
        let (x, y) = locks_elsewhere o now c row db in
        let found = found_action-id c i db action g in
        record {
          action = action;
          stored = g;
          current = a;
          was_ready = (action_request_status_eq.equals_iff action.status ready).0 b;
          written = rw e (cancelled_action-IsDropped c action reason now);
          actions = s ∙ y;
          locks =
              lock_cases c i now db db' (get_lock_for_action c i db) refl (rw (← found) (t ∙ x));
        }
  ]
]
