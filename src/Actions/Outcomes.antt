-- ===== src/Actions/Outcomes.antt =====
-- The rows that `ActionRequestService.cancel` leaves, field by field.
use ops_pilot_ai.Base.{
  ℕ, String, suc, Bool, true, false, Option, none, some, ◌≡◌, refl, arith, ◌==◌, nat_eq, All,
  All-map, In, find-In, find-none, is_none, ◌&&◌,
}
use ops_pilot_ai.Domain.Actions.{cancelled}
use ops_pilot_ai.Storage.Rows.{ActionRequestRecord, ResourceLockRecord}
use ops_pilot_ai.Storage.Database.{Db}
use ops_pilot_ai.Storage.Database.Scope.{Context, in_scope, actor_or_system}
use ops_pilot_ai.Storage.Database.Actors.{IsSigned, actor_or_system-IsSigned}
use ops_pilot_ai.Storage.Repositories.{get_lock_for_action}
use ops_pilot_ai.Locks.{ended}
use ops_pilot_ai.Actions.{cancelled_action}

-- The row asks for the same action.
pub record AsksTheSame (a row : ActionRequestRecord) : Type 0 where
  pub id : row.id ≡ a.id
  pub decision : row.policy_decision_id ≡ a.policy_decision_id
  pub approval : row.approval_id ≡ a.approval_id
  pub environment : row.environment_id ≡ a.environment_id
  pub incident : row.incident_id ≡ a.incident_id
  pub resource : row.resource_id ≡ a.resource_id
  pub capability : row.capability ≡ a.capability
  pub parameters : row.parameters ≡ a.parameters
  pub criteria : row.verification_criteria ≡ a.verification_criteria
  pub rollback : row.rollback_capability ≡ a.rollback_capability
  pub key : row.idempotency_key ≡ a.idempotency_key
  pub fingerprint : row.request_fingerprint ≡ a.request_fingerprint
  pub creator : row.created_by ≡ a.created_by

-- The action is CANCELLED at the next version, by the caller, now, for the reason.
pub record IsDropped (c : Context) (a row : ActionRequestRecord) (reason : String) (now : ℕ)
    : Type 0 where
  pub same : AsksTheSame a row
  pub status : row.status ≡ cancelled
  pub next_version : row.version ≡ suc a.version
  pub signed : IsSigned c row.cancelled_by
  pub explained : row.cancellation_reason ≡ some reason
  pub updated : row.updated_at ≡ now

-- The lease is over, by the caller, now; the lock is of the same action and keeps its token.
pub record IsLetGo (c : Context) (lock row : ResourceLockRecord) (now : ℕ) : Type 0 where
  pub id : row.id ≡ lock.id
  pub environment : row.environment_id ≡ lock.environment_id
  pub resource : row.resource_id ≡ lock.resource_id
  pub action : row.action_request_id ≡ lock.action_request_id
  pub incident : row.incident_id ≡ lock.incident_id
  pub token : row.fencing_token ≡ lock.fencing_token
  pub acquired : row.acquired_at ≡ lock.acquired_at
  pub renewed : row.renewed_at ≡ lock.renewed_at
  pub reconciliation : row.reconciliation_required ≡ lock.reconciliation_required
  pub released : row.released_at ≡ some now
  pub signed : IsSigned c row.released_by
  pub over : row.expires_at ≡ now
  pub updated : row.updated_at ≡ now

-- An unreleased lock row of the action, in an environment that the caller sees.
abbrev pub IsHeld : Context → ℕ → ResourceLockRecord → Type 0
IsHeld c i l =
    (l.action_request_id ≡ i) × (l.released_at ≡ none) × (in_scope c l.environment_id ≡ true)

pub cancelled_action-IsDropped :
    (c : Context) (a : ActionRequestRecord) (reason : String) (now : ℕ)
    → IsDropped c a (cancelled_action c a reason now) reason now
cancelled_action-IsDropped c a reason now = record {
  same = record {
    id = refl;
    decision = refl;
    approval = refl;
    environment = refl;
    incident = refl;
    resource = refl;
    capability = refl;
    parameters = refl;
    criteria = refl;
    rollback = refl;
    key = refl;
    fingerprint = refl;
    creator = refl;
  };
  status = refl;
  next_version = omega arith;
  signed = actor_or_system-IsSigned c;
  explained = refl;
  updated = refl;
}

pub ended-IsLetGo :
    (c : Context) (lock : ResourceLockRecord) (now : ℕ)
    → IsLetGo c lock (ended lock now (actor_or_system c)) now
ended-IsLetGo c lock now = record {
  id = refl;
  environment = refl;
  resource = refl;
  action = refl;
  incident = refl;
  token = refl;
  acquired = refl;
  renewed = refl;
  reconciliation = refl;
  released = refl;
  signed = actor_or_system-IsSigned c;
  over = refl;
  updated = refl;
}

held_test : Context → ℕ → ResourceLockRecord → Bool
held_test c i l = l.action_request_id == i && is_none l.released_at && in_scope c l.environment_id

no_option : (o : Option ℕ) → is_none o ≡ true → o ≡ none
no_option none h = refl
no_option (some n) h = absurd (cc h)

abbrev both : Bool → Bool → Bool → Bool
both a b d = a && b && d

passed : (a b d : Bool) → both a b d ≡ true → (a ≡ true) × (b ≡ true) × (d ≡ true)
passed true true true h = (refl, refl, refl)
passed true true false h = absurd (cc h)
passed true false d h = absurd (cc h)
passed false b d h = absurd (cc h)

pub found_lock-IsHeld :
    (c : Context) (i : ℕ) (db : Db) (l : ResourceLockRecord)
    → get_lock_for_action c i db ≡ some l
    → In l db.locks × IsHeld c i l
unfolding get_lock_for_action
found_lock-IsHeld c i db l h =
    let (m, t) = find-In _ l db.locks h in
    let (x, y, z) = passed _ _ _ t in
    (m, ((nat_eq.equals_iff l.action_request_id i).0 x, no_option l.released_at y, z))

refuted :
    (c : Context) (i : ℕ) (l : ResourceLockRecord) → held_test c i l ≡ false → ¬ (IsHeld c i l)
unfolding held_test
refuted c i l h (x, y, z) = ground (arith, h, x, y, z)

pub no_lock-IsHeld :
    (c : Context) (i : ℕ) (db : Db)
    → get_lock_for_action c i db ≡ none
    → All (λ (l : ResourceLockRecord). ¬ (IsHeld c i l)) db.locks
unfolding get_lock_for_action held_test
no_lock-IsHeld c i db h =
    All-map (λ (l : ResourceLockRecord). held_test c i l ≡ false)
      (λ (l : ResourceLockRecord). ¬ (IsHeld c i l)) (λ l t. refuted c i l t) db.locks
      (find-none _ db.locks h)
