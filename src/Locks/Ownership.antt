-- ===== src/Locks/Ownership.antt =====
-- `ResourceLockService._owned_active`: what a caller must show to change its lease.
use ops_pilot_ai.Base.{
  ℕ, true, none, some, ◌≡◌, ◌≢◌, inl, inr, arith, ok, ◌==◌, nat_eq, Option-cases,
}
use ops_pilot_ai.Domain.Actions.{ready, action_request_status_eq}
use ops_pilot_ai.Storage.Rows.{ActionRequestRecord, ResourceLockRecord}
use ops_pilot_ai.Storage.Database.{Db}
use ops_pilot_ai.Storage.Database.Scope.{Context}
use ops_pilot_ai.Storage.Repositories.{get_action, get_lock_for_action}
use ops_pilot_ai.Locks.{is_active, owned_active}

-- What `_owned_active` has checked when it returns: the action is READY, and the lock is the
-- unreleased row that names the action, active and with the token of the caller.
pub record Owned (c : Context) (i token now : ℕ) (db : Db) (lock : ResourceLockRecord)
    : Type 0 where
  pub action : ActionRequestRecord
  pub stored : get_action c i db ≡ some action
  pub is_ready : (action.status == ready) ≡ true
  pub found : get_lock_for_action c i db ≡ some lock
  pub token_kept : lock.fencing_token ≡ token
  pub active : is_active lock now ≡ true

pub owned_no_action :
    (c : Context) (i token now : ℕ) (db : Db) {r : ResourceLockRecord × Db}
    → get_action c i db ≡ none
    → owned_active c i token now db ≢ ok r
unfolding owned_active
owned_no_action c i token now db n h = ground arith

owned_checks :
    (c : Context) (i token now : ℕ) (db db' : Db) (action : ActionRequestRecord)
    (lock : ResourceLockRecord)
    → get_action c i db ≡ some action
    → owned_active c i token now db ≡ ok (lock, db')
    → ((action.status == ready) ≡ true)
      × (get_lock_for_action c i db ≡ some lock)
      × (lock.fencing_token ≡ token)
      × (is_active lock now ≡ true)
      × (db' ≡ db)
unfolding owned_active
owned_checks c i token now db db' action lock g h = ground arith

pub owned_active-Owned :
    (c : Context) (i token now : ℕ) (db db' : Db) (lock : ResourceLockRecord)
    → owned_active c i token now db ≡ ok (lock, db')
    → Owned c i token now db lock × (db' ≡ db)
owned_active-Owned c i token now db db' lock h = elim (Option-cases (get_action c i db)) [
  | inl n ↦ absurd (owned_no_action c i token now db n h)
  | inr (action, g) ↦
      let (r, f, k, o, e) = owned_checks c i token now db db' action lock g h in
      (
        record { action = action; stored = g; is_ready = r; found = f; token_kept = k; active = o },
        e,
      )
]
