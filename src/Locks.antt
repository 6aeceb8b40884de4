-- ===== src/Locks.antt =====
-- backend/app/services/resource_locks.py: leases on resources with fencing tokens.
pub mod Rows
pub mod Spec
pub mod Refinement
pub mod Calls
pub mod Histories
pub mod Ageing
pub mod Storing
pub mod Leases
pub mod Acquire
pub mod Creation
pub mod Fencing
pub mod Ownership
use ops_pilot_ai.Base.{
  ℕ, ◌+◌, String, Bool, true, false, not, ◌&&◌, ◌||◌, Option, none, some, List, [], ◌∷◌, ◌++◌,
  nat_eq, ◌==◌, if◌then◌else◌, application, integrity_error, is_none, leb, ltb, any, Error, differ,
}
use ops_pilot_ai.Domain.Actions.{ready, action_request_status_eq}
use ops_pilot_ai.Domain.Approvals.{approved, approval_status_eq}
use ops_pilot_ai.Domain.Security.{ActorId}
use ops_pilot_ai.Storage.Tables
use ops_pilot_ai.Storage.Values.{same_mapping}
use ops_pilot_ai.Storage.Rows.{
  Value, uuid, instant, PolicyDecisionRecord, ApprovalRecord, ActionRequestRecord,
  ResourceLockRecord,
}
use ops_pilot_ai.Storage.Database.{
  Db, Tx, pure, raise, gets, or_raise, raise_if, modify, fresh, ◌>>=◌, ◌>>◌,
}
use ops_pilot_ai.Storage.Database.Scope.{Context, actor_or_system}
use ops_pilot_ai.Storage.Repositories.{
  get_decision, get_approval, get_action, get_incident, get_lock_for_resource, get_lock_for_action,
}
use ops_pilot_ai.Events.{record_event, about}
use ops_pilot_ai.Policies.Rules.{PolicyDecision}
use ops_pilot_ai.Policies.Service.{revalidate_snapshot}

-- `approval is None or … or approval.expires_at <= now`, negated
abbrev pub approval_valid : ℕ → ℕ → Option ApprovalRecord → Bool
approval_valid snapshot_id now none = false
approval_valid snapshot_id now (some a) =
    a.policy_decision_id == snapshot_id && a.status == approved && ltb now a.expires_at

abbrev parameters_of : Option ApprovalRecord → List (String × Value)
parameters_of none = []
parameters_of (some a) = a.parameters

-- The part of `_revalidate_authorization` for a decision that requires an approval.
unfoldable pub check_approval : Context → ℕ → Option ℕ → List (String × Value) → ℕ → Tx (Unit {0})
check_approval c snapshot_id approval_id parameters now = do
  i ← or_raise approval_id (application "ACTION_APPROVAL_REQUIRED" 409)
  approval ← gets (get_approval c i)
  raise_if (not (approval_valid snapshot_id now approval))
      (application "ACTION_APPROVAL_INVALID" 409)
  raise_if (not (same_mapping (parameters_of approval) parameters))
      (application "ACTION_PARAMETERS_CHANGED" 409)

-- `_revalidate_authorization`; it reads the clock for the policy and then for the approval.
unfoldable pub revalidate_authorization :
    Context → ℕ → Option ℕ → List (String × Value) → ℕ → ℕ → Tx (Unit {0})
revalidate_authorization c snapshot_id approval_id parameters policy_now approval_now = do
  found ← gets (get_decision c snapshot_id)
  snapshot ← or_raise found (application "POLICY_DECISION_NOT_FOUND" 409)
  current ← revalidate_snapshot c snapshot policy_now
  raise_if (not current.allowed || differ current.approval_required snapshot.approval_required)
      (application "POLICY_REVALIDATION_FAILED" 409)
  if snapshot.approval_required
      then check_approval c snapshot.id approval_id parameters approval_now
      else pure tt

-- `_event`
unfoldable pub lock_event : Context → ℕ → ResourceLockRecord → String → ℕ → Tx (Unit {0})
lock_event c action_id lock event_type now = do
  found ← gets (get_incident c lock.incident_id)
  incident ← or_raise found (application "INCIDENT_NOT_FOUND" 404)
  record_event c incident event_type now "user"
      (("actionId", uuid action_id)
        ∷ ("resourceId", uuid lock.resource_id)
        ∷ ("expiresAt", instant lock.expires_at)
        ∷ [])
      (about "resource_lock" lock.id lock.fencing_token)

-- The flush of the changes to a row of `resource_locks`.
abbrev pub save_lock : ResourceLockRecord → Tx (Unit {0})
save_lock l =
    modify (λ db. record db { locks = Tables.save (λ (r : ResourceLockRecord). r.id) l db.locks })

-- `ResourceLockRepository.create` with the values of `acquire`, when no row has the resource yet
unfoldable pub insert_lock : ActionRequestRecord → ℕ → ℕ → Tx ResourceLockRecord
insert_lock action now expires_at = do
  i ← fresh
  let row : ResourceLockRecord = record {
    id = i;
    environment_id = action.environment_id;
    resource_id = action.resource_id;
    action_request_id = action.id;
    incident_id = action.incident_id;
    fencing_token = 1;
    acquired_at = now;
    renewed_at = now;
    expires_at = expires_at;
    released_at = none;
    released_by = none;
    reconciliation_required = false;
    updated_at = now;
  }
  modify (λ db. record db { locks = db.locks ++ row ∷ [] })
  pure row

-- The unique constraint on `resource_id`, which does not know of scopes.
unfoldable pub is_taken : ℕ → Db → Bool
unfolding any
is_taken resource_id db = any (λ (l : ResourceLockRecord). l.resource_id == resource_id) db.locks

-- What `acquire` does when the insert violates the constraint: without a commit of its own it
-- reports a conflict; otherwise it looks once more, and raises the `IntegrityError` again.
abbrev after_conflict : Context → Bool → ℕ → Tx (ResourceLockRecord × Bool)
after_conflict c false resource_id = raise (application "RESOURCE_LOCK_CONFLICT" 409)
after_conflict c true resource_id = do
  found ← gets (get_lock_for_resource c resource_id)
  lock ← or_raise found integrity_error
  pure (lock, false)

abbrev create_lock :
    Context → Bool → ActionRequestRecord → ℕ → ℕ → Bool → Tx (ResourceLockRecord × Bool)
create_lock c commit action now expires_at true = after_conflict c commit action.resource_id
create_lock c commit action now expires_at false = do
  lock ← insert_lock action now expires_at
  pure (lock, true)

-- The lock row of the action's resource, and whether this call created it.
unfoldable pub find_or_create :
    Context
    → Bool
    → ActionRequestRecord
    → ℕ
    → ℕ
    → Option ResourceLockRecord
    → Tx (ResourceLockRecord × Bool)
find_or_create c commit action now expires_at (some lock) = pure (lock, false)
find_or_create c commit action now expires_at none = do
  taken ← gets (is_taken action.resource_id)
  create_lock c commit action now expires_at taken

-- `lock.released_at is None and lock.expires_at > now`
abbrev pub is_active : ResourceLockRecord → ℕ → Bool
is_active lock now = is_none lock.released_at && ltb now lock.expires_at

-- The row after the action has taken the lock over.
abbrev pub taken_over : ResourceLockRecord → ActionRequestRecord → ℕ → ℕ → ResourceLockRecord
taken_over lock action now expires_at = record lock {
  action_request_id = action.id;
  incident_id = action.incident_id;
  environment_id = action.environment_id;
  fencing_token = lock.fencing_token + 1;
  acquired_at = now;
  renewed_at = now;
  expires_at = expires_at;
  released_at = none;
  released_by = none;
  updated_at = now;
}

unfoldable pub take_over :
    Context → ActionRequestRecord → ResourceLockRecord → ℕ → ℕ → Tx (ResourceLockRecord × Bool)
take_over c action lock now expires_at = do
  raise_if lock.reconciliation_required (application "RESOURCE_LOCK_RECONCILIATION_REQUIRED" 409)
  raise_if (is_active lock now) (application "RESOURCE_LOCK_CONFLICT" 409)
  save_lock (taken_over lock action now expires_at)
  lock_event c action.id (taken_over lock action now expires_at) "resource_lock.acquired" now
  pure (taken_over lock action now expires_at, false)

-- The end of `acquire`, by whether the row was created and whether the action holds it already.
abbrev settle :
    Context
    → ActionRequestRecord
    → ℕ
    → ℕ
    → ResourceLockRecord
    → Bool
    → Bool
    → Tx (ResourceLockRecord × Bool)
settle c action now expires_at lock true held = do
  lock_event c action.id lock "resource_lock.acquired" now
  pure (lock, false)
settle c action now expires_at lock false true = pure (lock, true)
settle c action now expires_at lock false false = take_over c action lock now expires_at

-- `acquire`: the lock of the action's resource, and whether the action held it already. `lease` is
-- `lease_duration`; the clock is read for the policy, for the approval and for the lock.
unfoldable pub acquire : Context → ℕ → ℕ → Bool → ℕ → ℕ → ℕ → Tx (ResourceLockRecord × Bool)
acquire c lease action_id commit policy_now approval_now now = do
  found ← gets (get_action c action_id)
  action ← or_raise found (application "ACTION_NOT_FOUND" 404)
  raise_if (not (action.status == ready)) (application "ACTION_NOT_LOCKABLE" 409)
  revalidate_authorization c action.policy_decision_id action.approval_id action.parameters
      policy_now approval_now
  row ← gets (get_lock_for_resource c action.resource_id)
  (lock, created) ← find_or_create c commit action now (now + lease) row
  settle c action now (now + lease) lock created
      (lock.action_request_id == action.id && is_active lock now)

-- `_owned_active`
unfoldable pub owned_active : Context → ℕ → ℕ → ℕ → Tx ResourceLockRecord
owned_active c action_id fencing_token now = do
  found ← gets (get_action c action_id)
  action ← or_raise found (application "ACTION_NOT_FOUND" 404)
  raise_if (not (action.status == ready)) (application "RESOURCE_LOCK_MANUAL_CHANGE_FORBIDDEN" 409)
  row ← gets (get_lock_for_action c action_id)
  lock ← or_raise row (application "RESOURCE_LOCK_NOT_FOUND" 404)
  raise_if (not (lock.fencing_token == fencing_token)) (application "RESOURCE_LOCK_FENCED" 409)
  raise_if (not (is_active lock now)) (application "RESOURCE_LOCK_EXPIRED" 409)
  pure lock

-- The row that `release_for_action` leaves.
abbrev pub ended : ResourceLockRecord → ℕ → ActorId → ResourceLockRecord
ended lock released_at released_by = record lock {
  released_at = some released_at;
  released_by = some released_by;
  expires_at = released_at;
  updated_at = released_at;
}

abbrev end_lease : ℕ → ActorId → Option ResourceLockRecord → Tx (Option ResourceLockRecord)
end_lease released_at released_by none = pure none
end_lease released_at released_by (some lock) = do
  save_lock (ended lock released_at released_by)
  pure (some (ended lock released_at released_by))

-- `ResourceLockRepository.release_for_action`
unfoldable pub release_for_action : Context → ℕ → ℕ → ActorId → Tx (Option ResourceLockRecord)
release_for_action c action_id released_at released_by = do
  lock ← gets (get_lock_for_action c action_id)
  end_lease released_at released_by lock

-- `renew`
unfoldable pub renew : Context → ℕ → ℕ → ℕ → ℕ → ℕ → Tx ResourceLockRecord
renew c lease action_id fencing_token check_now now = do
  lock ← owned_active c action_id fencing_token check_now
  let renewed : ResourceLockRecord = record lock {
    renewed_at = now;
    expires_at = now + lease;
    updated_at = now;
  }
  save_lock renewed
  pure renewed

-- `release`
unfoldable pub release : Context → ℕ → ℕ → ℕ → ℕ → Tx ResourceLockRecord
release c action_id fencing_token check_now now = do
  lock ← owned_active c action_id fencing_token check_now
  let released : ResourceLockRecord = record lock {
    released_at = some now;
    released_by = some (actor_or_system c);
    expires_at = now;
    updated_at = now;
  }
  save_lock released
  lock_event c action_id released "resource_lock.released" now
  pure released
