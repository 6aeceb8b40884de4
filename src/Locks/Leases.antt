-- ===== src/Locks/Leases.antt =====
-- `renew` and `release`: only the holder of the current fencing token changes the lease.
use ops_pilot_ai.Base.{
  ℕ, ◌+◌, ◌<◌, ◌≤◌, true, false, some, ◌≡◌, ◌≢◌, inl, inr, arith, ap, ok, err, Result-cases, Error,
}
use ops_pilot_ai.Storage.Rows.{ResourceLockRecord}
use ops_pilot_ai.Storage.Database.{Db}
use ops_pilot_ai.Storage.Database.Scope.{Context, actor_or_system}
use ops_pilot_ai.Storage.Repositories.{get_lock_for_action}
use ops_pilot_ai.Locks.{is_active, owned_active, renew, release}
use ops_pilot_ai.Locks.Storing.{saved, stored, release_stores}
use ops_pilot_ai.Locks.Ownership.{Owned, owned_active-Owned}

abbrev pub renewed : ResourceLockRecord → ℕ → ℕ → ResourceLockRecord
renewed lock lease now = record lock {
  renewed_at = now;
  expires_at = now + lease;
  updated_at = now;
}

pub renew_not_owned :
    (c : Context) (lease i token check now : ℕ) (db : Db) (e : Error) {r : ResourceLockRecord × Db}
    → owned_active c i token check db ≡ err e
    → renew c lease i token check now db ≢ ok r
unfolding renew
renew_not_owned c lease i token check now db e f h = ground arith

renew_step :
    (c : Context) (lease i token check now : ℕ) (db db' : Db) (lock l : ResourceLockRecord)
    → owned_active c i token check db ≡ ok (lock, db)
    → renew c lease i token check now db ≡ ok (l, db')
    → (l ≡ renewed lock lease now) × (db' ≡ saved l db)
unfolding renew
renew_step c lease i token check now db db' lock l f h = ground arith

pub release_not_owned :
    (c : Context) (i token check now : ℕ) (db : Db) (e : Error) {r : ResourceLockRecord × Db}
    → owned_active c i token check db ≡ err e
    → release c i token check now db ≢ ok r
unfolding release
release_not_owned c i token check now db e f h = ground arith

release_step :
    (c : Context) (i token check now : ℕ) (db db' : Db) (lock l : ResourceLockRecord)
    → owned_active c i token check db ≡ ok (lock, db)
    → release c i token check now db ≡ ok (l, db')
    → (l.id ≡ lock.id)
      × (l.resource_id ≡ lock.resource_id)
      × (l.action_request_id ≡ lock.action_request_id)
      × (l.fencing_token ≡ lock.fencing_token)
      × (is_active l now ≡ false)
      × (l.released_by ≡ some (actor_or_system c))
unfolding release
release_step c i token check now db db' lock l f h = ground arith

-- A call of `renew` that returns was made with the fencing token of an active, unreleased lock of
-- the READY action; with a lease of positive length, it writes that row back with its token and its
-- owner unchanged and active at the time of the call.
pub renew_keeps_token :
    (c : Context) (lease i token check now : ℕ) (db db' : Db) (l : ResourceLockRecord)
    → 0 < lease
    → renew c lease i token check now db ≡ ok (l, db')
    → (lock : ResourceLockRecord) × Owned c i token check db lock
      × (l ≡ renewed lock lease now)
      × (db' ≡ saved l db)
      × (l.fencing_token ≡ token)
      × (is_active l now ≡ true)
renew_keeps_token c lease i token check now db db' l p h =
    elim (Result-cases (owned_active c i token check db)) [
      | inr (e, f) ↦ absurd (renew_not_owned c lease i token check now db e f h)
      | inl ((lock, db₁), f) ↦
          let (o, same) = owned_active-Owned c i token check db db₁ lock f in
          let (x, y) = renew_step c lease i token check now db db' lock l (rw same at f) h in
          let k = o.token_kept in
          let act = o.active in
          (lock, o, x, y, cc (ap (λ (r : ResourceLockRecord). r.fencing_token) x, k), ground arith)
    ]

-- A call of `release` that returns was made with the fencing token of an active, unreleased lock of
-- the READY action; the lock it returns has the identifier, resource, action and token of that row,
-- is not active any more, names the caller and is stored over the row.
pub release_ends_lease :
    (c : Context) (i token check now : ℕ) (db db' : Db) (l : ResourceLockRecord)
    → release c i token check now db ≡ ok (l, db')
    → (lock : ResourceLockRecord) × Owned c i token check db lock
      × (l.id ≡ lock.id)
      × (l.resource_id ≡ lock.resource_id)
      × (l.action_request_id ≡ lock.action_request_id)
      × (l.fencing_token ≡ token)
      × (is_active l now ≡ false)
      × (l.released_by ≡ some (actor_or_system c))
      × (db'.locks ≡ stored l db)
      × (db.next_id ≤ db'.next_id)
release_ends_lease c i token check now db db' l h =
    elim (Result-cases (owned_active c i token check db)) [
      | inr (e, f) ↦ absurd (release_not_owned c i token check now db e f h)
      | inl ((lock, db₁), f) ↦
          let (o, same) = owned_active-Owned c i token check db db₁ lock f in
          let (a, b, own, t, n, by) =
            release_step c i token check now db db' lock l (rw same at f) h in
          let (w, ids) = release_stores c i token check now db db' lock l (rw same at f) h in
          let k = o.token_kept in (lock, o, a, b, own, cc (t, k), n, by, w, ids)
    ]

-- A caller whose fencing token is not the one of the action's unreleased lock can neither renew the
-- lease, at a positive length, nor release it.
pub stale_token_fenced :
    (c : Context) (lease i token check now : ℕ) (db : Db) (lock : ResourceLockRecord)
    (r : ResourceLockRecord × Db)
    → 0 < lease
    → get_lock_for_action c i db ≡ some lock
    → lock.fencing_token ≢ token
    → (renew c lease i token check now db ≢ ok r) × (release c i token check now db ≢ ok r)
stale_token_fenced c lease i token check now db lock (l, db') p g n = (
  λ h.
      let (x, o, _, _, _, _) = renew_keeps_token c lease i token check now db db' l p h in
      let f = o.found in let k = o.token_kept in absurd (ground arith),
  λ h.
      let (x, o, _, _, _, _, _, _, _, _) = release_ends_lease c i token check now db db' l h in
      let f = o.found in let k = o.token_kept in absurd (ground arith),
)
