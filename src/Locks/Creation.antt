-- ===== src/Locks/Creation.antt =====
-- `acquire` on a resource that has no lock row yet.
use ops_pilot_ai.Base.{
  ℕ, ◌+◌, Bool, true, false, none, some, ◌≡◌, ◌≢◌, inl, inr, arith, ok, nat_eq, Bool-cases,
  Result-cases,
}
use ops_pilot_ai.Domain.Actions.{action_request_status_eq}
use ops_pilot_ai.Storage.Rows.{ActionRequestRecord, ResourceLockRecord}
use ops_pilot_ai.Storage.Database.{Db}
use ops_pilot_ai.Storage.Database.Scope.{Context}
use ops_pilot_ai.Storage.Repositories.{get_action, get_lock_for_resource}
use ops_pilot_ai.Locks.{revalidate_authorization, is_taken, insert_lock, find_or_create, acquire}
use ops_pilot_ai.Locks.Acquire.{Revalidated, revalidate-Revalidated}
use ops_pilot_ai.Locks.Fencing.{not_authorized}

-- The new lock row `l` of the action's resource.
pub record Created (action : ActionRequestRecord) (now lease : ℕ) (db : Db) (l : ResourceLockRecord)
    : Type 0 where
  pub was_free : is_taken action.resource_id db ≡ false
  pub resource : l.resource_id ≡ action.resource_id
  pub owner : l.action_request_id ≡ action.id
  pub first_token : l.fencing_token ≡ 1
  pub lease_end : l.expires_at ≡ now + lease
  pub unreleased : l.released_at ≡ none

pub taken_conflicts :
    (c : Context) (lease i : ℕ) (commit : Bool) (p a now : ℕ) (db : Db)
    (action : ActionRequestRecord) {r : (ResourceLockRecord × Bool) × Db}
    → get_action c i db ≡ some action
    → revalidate_authorization c action.policy_decision_id action.approval_id action.parameters p a
        db
      ≡ ok (tt, db)
    → get_lock_for_resource c action.resource_id db ≡ none
    → is_taken action.resource_id db ≡ true
    → acquire c lease i commit p a now db ≢ ok r
unfolding acquire find_or_create
taken_conflicts c lease i true p a now db action g f s t h = ground arith
taken_conflicts c lease i false p a now db action g f s t h = ground arith

free_creates :
    (c : Context) (lease i : ℕ) (commit : Bool) (p a now : ℕ) (db db' : Db)
    (action : ActionRequestRecord) (l : ResourceLockRecord) (again : Bool)
    → get_action c i db ≡ some action
    → revalidate_authorization c action.policy_decision_id action.approval_id action.parameters p a
        db
      ≡ ok (tt, db)
    → get_lock_for_resource c action.resource_id db ≡ none
    → is_taken action.resource_id db ≡ false
    → acquire c lease i commit p a now db ≡ ok ((l, again), db')
    → (again ≡ false)
      × (l.resource_id ≡ action.resource_id)
      × (l.action_request_id ≡ action.id)
      × (l.fencing_token ≡ 1)
      × (l.expires_at ≡ now + lease)
      × (l.released_at ≡ none)
unfolding acquire find_or_create insert_lock
free_creates c lease i commit p a now db db' action l again g f s t h = ground arith

-- When no lock row of the action's resource is visible to the caller, a call of `acquire` that
-- returns has found the authorization of the action still valid and no row of the resource in any
-- scope; it returns a new row of the resource with the action as its owner, the first fencing token
-- and a full lease.
pub acquire-Created :
    (c : Context) (lease i : ℕ) (commit : Bool) (p a now : ℕ) (db db' : Db)
    (action : ActionRequestRecord) (l : ResourceLockRecord) (again : Bool)
    → get_action c i db ≡ some action
    → get_lock_for_resource c action.resource_id db ≡ none
    → acquire c lease i commit p a now db ≡ ok ((l, again), db')
    → (again ≡ false)
      × Created action now lease db l
      × Revalidated c action.policy_decision_id action.approval_id action.parameters p a db
acquire-Created c lease i commit p a now db db' action l again g s h =
    elim (Result-cases (
      revalidate_authorization c action.policy_decision_id action.approval_id action.parameters p a
        db)) [
          | inr (e, f) ↦ absurd (not_authorized c lease i commit p a now db action e g f h)
          | inl ((u, db₁), f) ↦
              let (v, same) =
                revalidate-Revalidated c action.policy_decision_id action.approval_id
                  action.parameters p a db db₁ f in
              elim (Bool-cases (is_taken action.resource_id db)) [
                | inl t ↦
                    absurd
                      (taken_conflicts c lease i commit p a now db action g (rw same at f) s t h)
                | inr t ↦
                    let (x, r, o, k, e, n) =
                      free_creates c lease i commit p a now db db' action l again g (rw same at f) s
                        t h in
                    (
                      x,
                      record {
                        was_free = t;
                        resource = r;
                        owner = o;
                        first_token = k;
                        lease_end = e;
                        unreleased = n;
                      },
                      v,
                    )
              ]
        ]
