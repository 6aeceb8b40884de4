-- ===== src/Actions.antt =====
-- backend/app/services/actions.py: an action is created once from a policy decision that allows it,
-- and can be cancelled while it is ready.
pub mod Capabilities
pub mod Approvals
pub mod Requested
pub mod Inserting
pub mod Creation
pub mod Limits
pub mod Replays
pub mod Outcomes
pub mod Cancellation
pub mod Locking
use ops_pilot_ai.Base.{
  ℕ, ◌+◌, String, Bool, true, false, not, ◌&&◌, ◌||◌, Option, none, some, List, [], ◌∷◌, ◌++◌,
  nat_eq, string_eq, ◌==◌, application, is_some, leb, any, differ, if◌then◌else◌,
}
use ops_pilot_ai.Domain.Actions.{ready, cancelled, action_request_status_eq, status_value}
use ops_pilot_ai.Domain.Approvals.{approved, approval_status_eq}
use ops_pilot_ai.Domain.Security.{ActorId}
use ops_pilot_ai.Storage.Tables
use ops_pilot_ai.Storage.Values.{same_mapping}
use ops_pilot_ai.Storage.Rows.{
  Value, null, text, uuid, PolicyDecisionRecord, ApprovalRecord, ActionRequestRecord,
  ResourceLockRecord, IncidentRecord,
}
use ops_pilot_ai.Storage.Database.{
  Db, Tx, pure, raise, gets, or_raise, raise_if, modify, fresh, ◌>>=◌, ◌>>◌,
}
use ops_pilot_ai.Storage.Database.Scope.{Context, actor_or_system}
use ops_pilot_ai.Storage.Repositories.{
  get_decision, get_approval, get_action, get_incident, get_by_idempotency_key,
  get_by_policy_decision, get_by_approval,
}
use ops_pilot_ai.Events.{record_event, about}
use ops_pilot_ai.Policies.Rules.{PolicyDecision}
use ops_pilot_ai.Policies.Service.{authorize_action_creation}
use ops_pilot_ai.Locks.{release_for_action}
use ops_pilot_ai.Actions.Capabilities.{validate_capability_parameters, validate_rollback_capability}

-- The arguments of `create`.
pub record ActionInput : Type 0 where
  pub policy_decision_id : ℕ
  pub approval_id : Option ℕ
  pub parameters : List (String × Value)
  pub verification_criteria : List String
  pub rollback_capability : Option String
  pub idempotency_key : String

-- The `payload` of `_fingerprint`.
pub record FingerprintPayload : Type 0 where
  pub snapshot_id : ℕ
  pub approval_id : Option ℕ
  pub parameters : List (String × Value)
  pub verification_criteria : List String
  pub rollback_capability : Option String

-- `_fingerprint`, where `digest` stands for `json.dumps` and SHA-256
abbrev pub fingerprint : (FingerprintPayload → ℕ) → ActionInput → ℕ
fingerprint digest r = digest record {
  snapshot_id = r.policy_decision_id;
  approval_id = r.approval_id;
  parameters = r.parameters;
  verification_criteria = r.verification_criteria;
  rollback_capability = r.rollback_capability;
}

abbrev belonging : ℕ → Option ApprovalRecord → Option ApprovalRecord
belonging snapshot_id none = none
belonging snapshot_id (some a) = if a.policy_decision_id == snapshot_id then some a else none

-- `_validate_approval`
unfoldable pub validate_approval :
    Context → ℕ → Bool → Option ℕ → List (String × Value) → ℕ → Tx (Unit {0})
validate_approval c snapshot_id false none parameters now = pure tt
validate_approval c snapshot_id false (some i) parameters now =
    raise (application "ACTION_APPROVAL_UNEXPECTED" 422)
validate_approval c snapshot_id true none parameters now =
    raise (application "ACTION_APPROVAL_REQUIRED" 409)
validate_approval c snapshot_id true (some i) parameters now = do
  found ← gets (get_approval c i)
  approval ← or_raise (belonging snapshot_id found) (application "ACTION_APPROVAL_INVALID" 422)
  raise_if (not (approval.status == approved)) (application "ACTION_APPROVAL_NOT_APPROVED" 409)
  raise_if (leb approval.expires_at now) (application "ACTION_APPROVAL_EXPIRED" 409)
  raise_if (not (same_mapping approval.parameters parameters))
      (application "ACTION_PARAMETERS_CHANGED" 422)
  used ← gets (get_by_approval c approval.id)
  raise_if (is_some used) (application "ACTION_APPROVAL_ALREADY_CONSUMED" 409)

-- `NULL` is not equal to itself in a unique constraint.
abbrev pub same_approval : Option ℕ → Option ℕ → Bool
same_approval (some i) (some j) = i == j
same_approval _ _ = false

-- The unique constraints of `action_requests`, which do not know of scopes.
unfoldable pub violates_unique : PolicyDecisionRecord → ActionInput → Db → Bool
violates_unique snapshot r db =
    any
      (λ (a : ActionRequestRecord).
        a.environment_id == snapshot.environment_id && a.idempotency_key == r.idempotency_key
        || a.policy_decision_id == snapshot.id
        || same_approval a.approval_id r.approval_id)
      db.actions

-- The values that `create` gives to the new row.
abbrev pub action_row :
    Context → PolicyDecisionRecord → ActionInput → ℕ → ℕ → ℕ → ActionRequestRecord
action_row c snapshot r mark now i = record {
  id = i;
  policy_decision_id = snapshot.id;
  approval_id = r.approval_id;
  environment_id = snapshot.environment_id;
  incident_id = snapshot.incident_id;
  resource_id = snapshot.resource_id;
  capability = snapshot.capability;
  status = ready;
  parameters = r.parameters;
  verification_criteria = r.verification_criteria;
  rollback_capability = r.rollback_capability;
  idempotency_key = r.idempotency_key;
  request_fingerprint = mark;
  created_by = actor_or_system c;
  cancelled_by = none;
  cancellation_reason = none;
  version = 1;
  updated_at = now;
}

-- `ActionRequestRepository.create`
unfoldable pub insert_action :
    Context → PolicyDecisionRecord → ActionInput → ℕ → ℕ → Tx ActionRequestRecord
insert_action c snapshot r mark now = do
  i ← fresh
  let row = action_row c snapshot r mark now i
  modify (λ db. record db { actions = db.actions ++ row ∷ [] })
  pure row

-- `"user" if actor else "system"`
abbrev pub user_or_system : Context → String
user_or_system none = "system"
user_or_system (some p) = "user"

abbrev pub id_or_null : Option ℕ → Value
id_or_null none = null
id_or_null (some i) = uuid i

-- The row with the idempotency key of the request, if it has the fingerprint `mark`.
abbrev raced : ℕ → Option ActionRequestRecord → Tx (ActionRequestRecord × Bool)
raced mark none = raise (application "ACTION_AUTHORIZATION_ALREADY_CONSUMED" 409)
raced mark (some a) =
    if a.request_fingerprint == mark
    then pure (a, true)
    else raise (application "ACTION_AUTHORIZATION_ALREADY_CONSUMED" 409)

-- The insertion, or what `create` does on an `IntegrityError`, when the savepoint is rolled back.
unfoldable pub insert_or_raced :
    Context
    → PolicyDecisionRecord
    → ActionInput
    → ℕ
    → IncidentRecord
    → ℕ
    → Bool
    → Tx (ActionRequestRecord × Bool)
insert_or_raced c snapshot r mark incident now true = do
  found ← gets (get_by_idempotency_key c snapshot.environment_id r.idempotency_key)
  raced mark found
insert_or_raced c snapshot r mark incident now false = do
  row ← insert_action c snapshot r mark now
  record_event c incident "action.requested" now (user_or_system c)
      (("actionId", uuid row.id)
        ∷ ("approvalId", id_or_null r.approval_id)
        ∷ ("capability", text row.capability)
        ∷ ("status", text (status_value row.status))
        ∷ [])
      (about "action_request" row.id row.version)
  pure (row, false)

-- `create` after the look for the idempotency key.
unfoldable pub replay_or_insert :
    Context
    → PolicyDecisionRecord
    → ActionInput
    → ℕ
    → ℕ
    → ℕ
    → ℕ
    → Option ActionRequestRecord
    → Tx (ActionRequestRecord × Bool)
replay_or_insert c snapshot r mark approval_now policy_now now (some existing) = do
  raise_if (not (existing.request_fingerprint == mark))
      (application "ACTION_IDEMPOTENCY_CONFLICT" 409)
  pure (existing, true)
replay_or_insert c snapshot r mark approval_now policy_now now none = do
  consumed ← gets (get_by_policy_decision c snapshot.id)
  raise_if (is_some consumed) (application "ACTION_AUTHORIZATION_ALREADY_CONSUMED" 409)
  validate_approval c snapshot.id snapshot.approval_required r.approval_id r.parameters approval_now
  current ← authorize_action_creation c snapshot policy_now
  raise_if (not current.allowed || differ current.approval_required snapshot.approval_required)
      (application "POLICY_REVALIDATION_FAILED" 409)
  found ← gets (get_incident c snapshot.incident_id)
  incident ← or_raise found (application "INCIDENT_NOT_FOUND" 404)
  clash ← gets (violates_unique snapshot r)
  insert_or_raced c snapshot r mark incident now clash

-- `create`: the action, and whether it existed already. The clock is read for the approval, for the
-- policy and for the action.
unfoldable pub create :
    Context → (FingerprintPayload → ℕ) → ActionInput → ℕ → ℕ → ℕ → Tx (ActionRequestRecord × Bool)
create c digest r approval_now policy_now now = do
  found ← gets (get_decision c r.policy_decision_id)
  snapshot ← or_raise found (application "POLICY_DECISION_NOT_FOUND" 404)
  raise_if (not snapshot.allowed) (application "ACTION_POLICY_DENIED" 409)
  validate_capability_parameters snapshot.capability r.parameters
  validate_rollback_capability snapshot.capability r.rollback_capability
  existing ← gets (get_by_idempotency_key c snapshot.environment_id r.idempotency_key)
  replay_or_insert c snapshot r (fingerprint digest r) approval_now policy_now now existing

-- The flush of the changes to a row of `action_requests`.
abbrev pub save_action : ActionRequestRecord → Tx (Unit {0})
save_action a =
    modify
      (λ db. record db { actions = Tables.save (λ (r : ActionRequestRecord). r.id) a db.actions })

-- The row that `cancel` leaves.
abbrev pub cancelled_action : Context → ActionRequestRecord → String → ℕ → ActionRequestRecord
cancelled_action c a reason now = record a {
  status = cancelled;
  cancelled_by = some (actor_or_system c);
  cancellation_reason = some reason;
  version = a.version + 1;
  updated_at = now;
}

abbrev pub record_released :
    Context → IncidentRecord → ℕ → ℕ → Option ResourceLockRecord → Tx (Unit {0})
record_released c incident action_id now none = pure tt
record_released c incident action_id now (some lock) =
    record_event c incident "resource_lock.released" now (user_or_system c)
      (("actionId", uuid action_id)
        ∷ ("resourceId", uuid lock.resource_id)
        ∷ ("reason", text "action.cancelled")
        ∷ [])
      (about "resource_lock" lock.id lock.fencing_token)

-- The events of `cancel`, about the action and about the lock that it has released.
unfoldable pub record_cancelled :
    Context
    → IncidentRecord
    → ActionRequestRecord
    → String
    → ℕ
    → Option ResourceLockRecord
    → Tx (Unit {0})
record_cancelled c incident row reason now lock = do
  record_event c incident "action.cancelled" now (user_or_system c)
      (("actionId", uuid row.id) ∷ ("reason", text reason) ∷ [])
      (about "action_request" row.id row.version)
  record_released c incident row.id now lock

-- `cancel`
unfoldable pub cancel : Context → ℕ → ℕ → String → ℕ → Tx ActionRequestRecord
cancel c action_id expected_version reason now = do
  found ← gets (get_action c action_id)
  action ← or_raise found (application "ACTION_NOT_FOUND" 404)
  raise_if (not (action.version == expected_version)) (application "ACTION_VERSION_CONFLICT" 409)
  raise_if (not (action.status == ready)) (application "ACTION_NOT_CANCELLABLE" 409)
  holder ← gets (get_incident c action.incident_id)
  incident ← or_raise holder (application "INCIDENT_NOT_FOUND" 404)
  let row = cancelled_action c action reason now
  save_action row
  lock ← release_for_action c row.id now (actor_or_system c)
  record_cancelled c incident row reason now lock
  pure row
