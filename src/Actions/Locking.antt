-- ===== src/Actions/Locking.antt =====
-- `ActionRequestService.cancel` against the lock service: a cancelled action gets no lease.
use ops_pilot_ai.Base.{
  ℕ, String, Bool, false, some, ◌≡◌, ◌≢◌, ◌∙◌, refl, ap, arith, ok, ◌==◌, inl, inr, Option-cases,
  Result-cases, nat_eq,
}
use ops_pilot_ai.Domain.Actions.{
  ready, cancelled, action_request_status_eq, ActionRequestStatus-discrete,
}
use ops_pilot_ai.Storage.Tables
use ops_pilot_ai.Storage.Rows.{ActionRequestRecord, ResourceLockRecord}
use ops_pilot_ai.Storage.Database.{Db}
use ops_pilot_ai.Storage.Database.Scope.{Context}
use ops_pilot_ai.Storage.Repositories.{get_action}
use ops_pilot_ai.Locks.{acquire, renew, release, owned_active}
use ops_pilot_ai.Locks.Fencing.{no_action as no_stored_action}
use ops_pilot_ai.Locks.Leases.{renew_not_owned, release_not_owned}
use ops_pilot_ai.Locks.Ownership.{owned_no_action}
use ops_pilot_ai.Actions.{cancel}
use ops_pilot_ai.Actions.Cancellation.{IsCancelled, found_action-id, cancel-IsCancelled}

module _ (c : Context) (i : ℕ) (db : Db) (action : ActionRequestRecord)
    (g : get_action c i db ≡ some action) (n : (action.status == ready) ≡ false) where
  acquire_refuses :
      (lease : ℕ) (commit : Bool) (p a now : ℕ) {x : (ResourceLockRecord × Bool) × Db}
      → acquire c lease i commit p a now db ≢ ok x
  unfolding acquire
  acquire_refuses lease commit p a now h = ground arith

  owned_refuses :
      (token now : ℕ) {x : ResourceLockRecord × Db} → owned_active c i token now db ≢ ok x
  unfolding owned_active
  owned_refuses token now h = ground arith

stored_row :
    (c : Context) (i : ℕ) (db : Db) (a : ActionRequestRecord)
    → get_action c i db ≡ some a
    → Tables.get (λ (r : ActionRequestRecord). r.id) i db.actions ≡ some a
unfolding get_action
stored_row c i db a h = ground arith

-- In the database that `cancel` left, no principal finds the action READY.
not_ready :
    (c c' : Context) (i v : ℕ) (reason : String) (now : ℕ) (db db' : Db)
    (row a : ActionRequestRecord)
    → IsCancelled c i v reason now db db' row
    → get_action c' i db' ≡ some a
    → (a.status == ready) ≡ false
unfolding ActionRequestStatus-discrete
not_ready c c' i v reason now db db' row a k g =
    let own : row.id ≡ i = k.written.same.id ∙ found_action-id c i db k.action k.stored in
    let found = stored_row c i db k.action k.stored in
    let w = Tables.get-save (λ (x : ActionRequestRecord). x.id) row i db.actions in
    let after : Tables.get (λ (r : ActionRequestRecord). r.id) i db'.actions ≡ some row =
      ground (arith, k.actions, own, found, w) in
    let same : a ≡ row = ground (arith, stored_row c' i db' a g, after) in
    let s : a.status ≡ cancelled =
      ap (λ (x : ActionRequestRecord). x.status) same ∙ k.written.status in
    rw s refl

renew_refuses :
    (c : Context) (lease i token check now : ℕ) (db : Db) {x : ResourceLockRecord × Db}
    → ((y : ResourceLockRecord × Db) → owned_active c i token check db ≢ ok y)
    → (renew c lease i token check now db ≢ ok x) × (release c i token check now db ≢ ok x)
renew_refuses c lease i token check now db n =
    elim (Result-cases (owned_active c i token check db)) [
      | inl (y, f) ↦ absurd (n y f)
      | inr (e, f) ↦ (
        λ h. renew_not_owned c lease i token check now db e f h,
        λ h. release_not_owned c i token check now db e f h,
      )
    ]

-- After a call of `cancel` that returns, no call of the lock service for the action returns in the
-- database that it left, whoever calls, at whatever time and with whatever token.
pub cancel_ends_locking :
    (c c' : Context) (i v : ℕ) (reason : String) (now : ℕ) (db db' : Db) (row : ActionRequestRecord)
    (lease : ℕ) (commit : Bool) (p a t token check : ℕ) (x : (ResourceLockRecord × Bool) × Db)
    (y : ResourceLockRecord × Db)
    → cancel c i v reason now db ≡ ok (row, db')
    → (acquire c' lease i commit p a t db' ≢ ok x)
      × (renew c' lease i token check t db' ≢ ok y)
      × (release c' i token check t db' ≢ ok y)
cancel_ends_locking c c' i v reason now db db' row lease commit p a t token check x y h =
    let k = cancel-IsCancelled c i v reason now db db' row h in
    elim (Option-cases (get_action c' i db')) [
      | inl n ↦
          let (r, l) =
            renew_refuses c' lease i token check t db'
              (λ y f. owned_no_action c' i token check db' n f) in
          (λ f. no_stored_action c' lease i commit p a t db' n f, r, l)
      | inr (b, g) ↦
          let u = not_ready c c' i v reason now db db' row b k g in
          let (r, l) =
            renew_refuses c' lease i token check t db'
              (λ y f. owned_refuses c' i db' b g u token check f) in
          (λ f. acquire_refuses c' i db' b g u lease commit p a t f, r, l)
    ]
