-- ===== src/Locks/Fencing.antt =====
-- `ResourceLockService.acquire` on a resource that has a lock row: who may hold it, with which token.
use ops_pilot_ai.Base.{
  ℕ, ◌+◌, Bool, true, false, ◌&&◌, none, some, ◌≤◌, ◌≡◌, ◌≢◌, ◌⊎◌, inl, inr, arith, ap, ok, err,
  ◌==◌, nat_eq, Bool-cases, Result-cases, Error,
}
use ops_pilot_ai.Domain.Actions.{ready, action_request_status_eq}
use ops_pilot_ai.Storage.Rows.{ActionRequestRecord, ResourceLockRecord}
use ops_pilot_ai.Storage.Database.{Db}
use ops_pilot_ai.Storage.Database.Scope.{Context}
use ops_pilot_ai.Storage.Repositories.{get_action, get_lock_for_resource}
use ops_pilot_ai.Locks.{
  revalidate_authorization, is_active, taken_over, find_or_create, take_over, acquire,
}
use ops_pilot_ai.Locks.Storing.{stored, take_over_stores}
use ops_pilot_ai.Locks.Acquire.{Revalidated, revalidate-Revalidated}

-- What `take_over` has checked when it returns.
take_over_lem :
    (c : Context) (action : ActionRequestRecord) (lock l : ResourceLockRecord) (now e : ℕ)
    (again : Bool) (db db' : Db)
    → take_over c action lock now e db ≡ ok ((l, again), db')
    → (lock.reconciliation_required ≡ false)
      × (is_active lock now ≡ false)
      × (again ≡ false)
      × (l ≡ taken_over lock action now e)
unfolding take_over
take_over_lem c action lock l now e again db db' h = ground arith

-- A lock row that the action holds already.
abbrev pub Kept : ActionRequestRecord → ℕ → ResourceLockRecord → ResourceLockRecord → Type 0
Kept action now lock l =
    (lock.action_request_id ≡ action.id) × (is_active lock now ≡ true) × (l ≡ lock)

-- The lock row `lock` after the action has taken it over as `l`.
pub record Taken (action : ActionRequestRecord) (now lease : ℕ) (lock l : ResourceLockRecord)
    : Type 0 where
  pub reconciled : lock.reconciliation_required ≡ false
  pub was_free : is_active lock now ≡ false
  pub same_row : l.id ≡ lock.id
  pub same_resource : l.resource_id ≡ lock.resource_id
  pub owner : l.action_request_id ≡ action.id
  pub incident : l.incident_id ≡ action.incident_id
  pub next_token : l.fencing_token ≡ lock.fencing_token + 1
  pub lease_end : l.expires_at ≡ now + lease
  pub unreleased : l.released_at ≡ none

taken_over-Taken :
    (action : ActionRequestRecord) (now lease : ℕ) (lock l : ResourceLockRecord)
    → lock.reconciliation_required ≡ false
    → is_active lock now ≡ false
    → l ≡ taken_over lock action now (now + lease)
    → Taken action now lease lock l
taken_over-Taken action now lease lock l r n e = record {
  reconciled = r;
  was_free = n;
  same_row = cc (ap (λ (x : ResourceLockRecord). x.id) e);
  same_resource = cc (ap (λ (x : ResourceLockRecord). x.resource_id) e);
  owner = cc (ap (λ (x : ResourceLockRecord). x.action_request_id) e);
  incident = cc (ap (λ (x : ResourceLockRecord). x.incident_id) e);
  next_token = cc (ap (λ (x : ResourceLockRecord). x.fencing_token) e);
  lease_end = cc (ap (λ (x : ResourceLockRecord). x.expires_at) e);
  unreleased = cc (ap (λ (x : ResourceLockRecord). x.released_at) e);
}

pub no_action :
    (c : Context) (lease i : ℕ) (commit : Bool) (p a now : ℕ) (db : Db)
    {r : (ResourceLockRecord × Bool) × Db}
    → get_action c i db ≡ none
    → acquire c lease i commit p a now db ≢ ok r
unfolding acquire
no_action c lease i commit p a now db n h = ground arith

pub not_authorized :
    (c : Context) (lease i : ℕ) (commit : Bool) (p a now : ℕ) (db : Db)
    (action : ActionRequestRecord) (e : Error) {r : (ResourceLockRecord × Bool) × Db}
    → get_action c i db ≡ some action
    → revalidate_authorization c action.policy_decision_id action.approval_id action.parameters p a
        db
      ≡ err e
    → acquire c lease i commit p a now db ≢ ok r
unfolding acquire
not_authorized c lease i commit p a now db action e g f h = ground arith

is_ready :
    (c : Context) (lease i : ℕ) (commit : Bool) (p a now : ℕ) (db : Db)
    (action : ActionRequestRecord) {r : (ResourceLockRecord × Bool) × Db}
    → get_action c i db ≡ some action
    → acquire c lease i commit p a now db ≡ ok r
    → (action.status == ready) ≡ true
unfolding acquire
is_ready c lease i commit p a now db action g h = ground arith

keeps :
    (c : Context) (lease i : ℕ) (commit : Bool) (p a now : ℕ) (db db' : Db)
    (action : ActionRequestRecord) (lock l : ResourceLockRecord) (again : Bool)
    → get_action c i db ≡ some action
    → revalidate_authorization c action.policy_decision_id action.approval_id action.parameters p a
        db
      ≡ ok (tt, db)
    → get_lock_for_resource c action.resource_id db ≡ some lock
    → (lock.action_request_id == action.id && is_active lock now) ≡ true
    → acquire c lease i commit p a now db ≡ ok ((l, again), db')
    → (again ≡ true) × (l ≡ lock) × (db' ≡ db)
unfolding acquire find_or_create
keeps c lease i commit p a now db db' action lock l again g f s o h = ground arith

takes :
    (c : Context) (lease i : ℕ) (commit : Bool) (p a now : ℕ) (db db' : Db)
    (action : ActionRequestRecord) (lock l : ResourceLockRecord) (again : Bool)
    → get_action c i db ≡ some action
    → revalidate_authorization c action.policy_decision_id action.approval_id action.parameters p a
        db
      ≡ ok (tt, db)
    → get_lock_for_resource c action.resource_id db ≡ some lock
    → (lock.action_request_id == action.id && is_active lock now) ≡ false
    → acquire c lease i commit p a now db ≡ ok ((l, again), db')
    → take_over c action lock now (now + lease) db ≡ ok ((l, again), db')
unfolding acquire find_or_create
takes c lease i commit p a now db db' action lock l again g f s o h = ground arith

-- What a call of `acquire` that returns `(l, again)` means, when the resource has the row `lock`.
pub record Acquired (c : Context) (lease p a now : ℕ) (action : ActionRequestRecord) (db db' : Db)
    (lock l : ResourceLockRecord) (again : Bool) : Type 0 where
  pub is_ready : action.status ≡ ready
  pub authorized :
      Revalidated c action.policy_decision_id action.approval_id action.parameters p a db
  pub outcome :
      ((again ≡ true) × (db' ≡ db) × Kept action now lock l)
      ⊎ ((again ≡ false) × Taken action now lease lock l × (db'.locks ≡ stored l db))

acquire_outcome :
    (c : Context) (lease i : ℕ) (commit : Bool) (p a now : ℕ) (db db' : Db)
    (action : ActionRequestRecord) (lock l : ResourceLockRecord) (again : Bool)
    → get_action c i db ≡ some action
    → revalidate_authorization c action.policy_decision_id action.approval_id action.parameters p a
        db
      ≡ ok (tt, db)
    → get_lock_for_resource c action.resource_id db ≡ some lock
    → acquire c lease i commit p a now db ≡ ok ((l, again), db')
    → ((again ≡ true) × (db' ≡ db) × Kept action now lock l)
      ⊎ ((again ≡ false) × Taken action now lease lock l × (db'.locks ≡ stored l db))
acquire_outcome c lease i commit p a now db db' action lock l again g f s h =
    elim (Bool-cases (lock.action_request_id == action.id && is_active lock now)) [
      | inl t ↦
          let (x, y, z) = keeps c lease i commit p a now db db' action lock l again g f s t h in
          inl (x, z, (ground arith, ground arith, y))
      | inr o ↦
          let (r, n, x, y) =
            take_over_lem c action lock l now (now + lease) again db db'
              (takes c lease i commit p a now db db' action lock l again g f s o h) in
          inr (
            x,
            taken_over-Taken action now lease lock l r n y,
            (take_over_stores c action lock l now (now + lease) again db db'
                (takes c lease i commit p a now db db' action lock l again g f s o h)).0,
          )
    ]

-- A call that returns on an existing row takes identifiers, and gives none back.
pub acquire-le-next_id :
    (c : Context) (lease i : ℕ) (commit : Bool) (p a now : ℕ) (db db' : Db)
    (action : ActionRequestRecord) (lock l : ResourceLockRecord) (again : Bool)
    → get_action c i db ≡ some action
    → revalidate_authorization c action.policy_decision_id action.approval_id action.parameters p a
        db
      ≡ ok (tt, db)
    → get_lock_for_resource c action.resource_id db ≡ some lock
    → acquire c lease i commit p a now db ≡ ok ((l, again), db')
    → db.next_id ≤ db'.next_id
acquire-le-next_id c lease i commit p a now db db' action lock l again g f s h =
    elim (Bool-cases (lock.action_request_id == action.id && is_active lock now)) [
      | inl t ↦
          let (x, y, z) = keeps c lease i commit p a now db db' action lock l again g f s t h in
          let n = ap (λ (d : Db). d.next_id) z in omega arith
      | inr o ↦
          (take_over_stores c action lock l now (now + lease) again db db'
            (takes c lease i commit p a now db db' action lock l again g f s o h)).1
    ]

-- When the resource of the action has a lock row, a call of `acquire` that returns has found a
-- READY action whose authorization still holds under the rules and the approval of today; then
-- either the action held the lock already and nothing changed, or the old lock had expired or been
-- released and awaited no reconciliation, and the result is that row with the action as its owner,
-- a new lease and the next fencing token, stored over the old row.
pub acquire-Acquired :
    (c : Context) (lease i : ℕ) (commit : Bool) (p a now : ℕ) (db db' : Db)
    (action : ActionRequestRecord) (lock l : ResourceLockRecord) (again : Bool)
    → get_action c i db ≡ some action
    → get_lock_for_resource c action.resource_id db ≡ some lock
    → acquire c lease i commit p a now db ≡ ok ((l, again), db')
    → Acquired c lease p a now action db db' lock l again
acquire-Acquired c lease i commit p a now db db' action lock l again g s h =
    elim (Result-cases (
      revalidate_authorization c action.policy_decision_id action.approval_id action.parameters p a
        db)) [
          | inr (e, f) ↦ absurd (not_authorized c lease i commit p a now db action e g f h)
          | inl ((u, db₁), f) ↦
              let (v, same) =
                revalidate-Revalidated c action.policy_decision_id action.approval_id
                  action.parameters p a db db₁ f in
              record {
                is_ready =
                    (action_request_status_eq.equals_iff action.status ready).0
                      (is_ready c lease i commit p a now db action g h);
                authorized = v;
                outcome =
                    acquire_outcome c lease i commit p a now db db' action lock l again g
                      (rw same at f) s h;
              }
        ]

-- While the lock row of a resource is active and names another action, no call of `acquire` for an
-- action on that resource returns.
pub acquire_excludes :
    (c : Context) (lease i : ℕ) (commit : Bool) (p a now : ℕ) (db : Db)
    (action : ActionRequestRecord) (lock : ResourceLockRecord)
    (r : (ResourceLockRecord × Bool) × Db)
    → get_action c i db ≡ some action
    → get_lock_for_resource c action.resource_id db ≡ some lock
    → is_active lock now ≡ true
    → lock.action_request_id ≢ action.id
    → acquire c lease i commit p a now db ≢ ok r
acquire_excludes c lease i commit p a now db action lock ((l, again), db') g s t n h =
    let k = acquire-Acquired c lease i commit p a now db db' action lock l again g s h in
    elim k.outcome [ inl (x, y, z) ↦ absurd (n z.0) | inr (x, z, y) ↦ absurd (cc (t, z.was_free)) ]
