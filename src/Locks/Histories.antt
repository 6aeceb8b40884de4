-- ===== src/Locks/Histories.antt =====
-- Sequences of calls of backend/app/services/resource_locks.py.
use ops_pilot_ai.Base.{ℕ, ◌<◌, ◌≤◌, Bool, Option, ◌≡◌, ok, nat_eq}
use ops_pilot_ai.Domain.Security.{ActorId}
use ops_pilot_ai.Storage.Rows.{ResourceLockRecord}
use ops_pilot_ai.Storage.Database.{Db}
use ops_pilot_ai.Storage.Database.Scope.{Context}
use ops_pilot_ai.Locks.{acquire, renew, release, release_for_action}
use ops_pilot_ai.Locks.Refinement.{IsLockTable}
use ops_pilot_ai.Locks.Calls.{
  Keeps, other-Keeps, acquire-Keeps, renew-Keeps, release-Keeps, release_for_action-Keeps,
}

-- One change of the database by a call at the time `now`: a call of the lock service that returns,
-- or anything that leaves the lock rows alone and gives no identifier back.
pub data Called : ℕ → Db → Db → Type 0 where
  acquired :
      {db db' : Db} (c : Context) (lease_length i : ℕ) (commit : Bool) (p a now : ℕ)
      (l : ResourceLockRecord) (again : Bool)
      → acquire c lease_length i commit p a now db ≡ ok ((l, again), db')
      → Called now db db'
  renewed :
      {db db' : Db} (c : Context) (lease_length i token now written : ℕ) (l : ResourceLockRecord)
      → 0 < lease_length
      → renew c lease_length i token now written db ≡ ok (l, db')
      → Called now db db'
  released :
      {db db' : Db} (c : Context) (i token now written : ℕ) (l : ResourceLockRecord)
      → release c i token now written db ≡ ok (l, db')
      → Called now db db'
  ended_for :
      {db db' : Db} (c : Context) (i now written : ℕ) (by : ActorId) (o : Option ResourceLockRecord)
      → release_for_action c i written by db ≡ ok (o, db')
      → Called now db db'
  other :
      {db db' : Db} (now : ℕ) → db'.locks ≡ db.locks → db.next_id ≤ db'.next_id → Called now db db'

-- From a table in which no two lock rows share an identifier or a resource and the next identifier
-- is above all of theirs, every change leads to such a table, be it a call of acquire, renew with a
-- lease of positive length, release or release_for_action that returns, or anything that leaves the
-- lock rows alone and gives no identifier back; and it does to the lease of each resource what
-- Locks.Spec promises: it grants the first lease, passes on a lease that has ended under the next
-- token, changes a running lease of the same holder under its token, ends a lease of the same
-- holder under its token, or leaves it as it is.
pub Called-Keeps : (now : ℕ) (db db' : Db) → IsLockTable db → Called now db db' → Keeps now db db'
Called-Keeps now db db' v (acquired c n i commit p a _ l again h) =
    acquire-Keeps c n i commit p a now db db' l again v h
Called-Keeps now db db' v (renewed c n i token _ written l p h) =
    renew-Keeps c n i token now written db db' l v p h
Called-Keeps now db db' v (released c i token _ written l h) =
    release-Keeps c i token now written db db' l v h
Called-Keeps now db db' v (ended_for c i _ written by o h) =
    release_for_action-Keeps c i now written by db db' o v h
Called-Keeps now db db' v (other _ e n) = other-Keeps now db db' v e n
