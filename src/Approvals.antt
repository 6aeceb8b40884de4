-- ===== src/Approvals.antt =====
-- backend/app/services/approvals.py: an approval is asked for, and decided once, by somebody else.
pub mod Keeping
pub mod Waiting
pub mod Settling
pub mod Edits
pub mod Outcomes
pub mod Deciding
use ops_pilot_ai.Base.{
  ℕ, ◌+◌, ◌*◌, String, Bool, true, false, not, ◌&&◌, ◌||◌, Option, none, some, List, [], ◌∷◌, ◌++◌,
  nat_eq, string_eq, ◌==◌, application, leb, any, all, contains, if◌then◌else◌,
}
use ops_pilot_ai.Domain.Approvals.{
  ApprovalStatus, pending, approved, rejected, expired, approval_status_eq, ApprovalDecision,
  approve, reject, value,
}
use ops_pilot_ai.Domain.Investigations.{InvestigationHitlSubjectType}
use ops_pilot_ai.Domain.Security.{ActorId, actor_id}
use ops_pilot_ai.Storage.Tables
use ops_pilot_ai.Storage.Values.{same_actor}
use ops_pilot_ai.Storage.Rows.{Value, text, uuid, instant, PolicyDecisionRecord, ApprovalRecord}
use ops_pilot_ai.Storage.Database.{
  Db, Tx, pure, gets, or_raise, raise_if, modify, fresh, ◌>>=◌, ◌>>◌,
}
use ops_pilot_ai.Storage.Database.Scope.{Context, actor_or_system}
use ops_pilot_ai.Storage.Repositories.{get_decision, get_approval, get_incident}
use ops_pilot_ai.Events.{Payload, set_item, record_event, about}
use ops_pilot_ai.Policies.Service.{revalidate_snapshot}
use ops_pilot_ai.Actions.{FingerprintPayload, user_or_system}
use ops_pilot_ai.Proposals.{resolve_approval}
use ops_pilot_ai.Waits.{resolve_subject}

-- The values that `create` gives to the new row.
abbrev pub approval_row :
    Context → PolicyDecisionRecord → Payload → List String → ℕ → ℕ → ℕ → ApprovalRecord
approval_row c snapshot parameters editable_parameter_keys expires_in_seconds now i = record {
  id = i;
  policy_decision_id = snapshot.id;
  environment_id = snapshot.environment_id;
  incident_id = snapshot.incident_id;
  resource_id = snapshot.resource_id;
  capability = snapshot.capability;
  status = pending;
  requested_by = actor_or_system c;
  decided_by = none;
  expires_at = now + expires_in_seconds * 1_000_000;
  decided_at = none;
  decision_comment = none;
  parameters = parameters;
  editable_parameter_keys = editable_parameter_keys;
  version = 1;
  updated_at = now;
}

-- The unique constraint on `policy_decision_id`, which does not know of scopes.
unfoldable pub has_approval : ℕ → Db → Bool
has_approval snapshot_id db =
    any (λ (a : ApprovalRecord). a.policy_decision_id == snapshot_id) db.approvals

-- `ApprovalRepository.create`, where the constraint does not fail
unfoldable pub insert_approval : (ℕ → ApprovalRecord) → Tx ApprovalRecord
insert_approval row = do
  i ← fresh
  taken ← gets (has_approval (row i).policy_decision_id)
  raise_if taken (application "APPROVAL_ALREADY_EXISTS" 409)
  modify (λ db. record db { approvals = db.approvals ++ row i ∷ [] })
  pure (row i)

-- `create`
unfoldable pub create : Context → ℕ → Payload → List String → ℕ → ℕ → Tx ApprovalRecord
create c policy_decision_id parameters editable_parameter_keys expires_in_seconds now = do
  found ← gets (get_decision c policy_decision_id)
  snapshot ← or_raise found (application "POLICY_DECISION_NOT_FOUND" 404)
  raise_if (not snapshot.allowed || not snapshot.approval_required)
      (application "APPROVAL_NOT_REQUIRED" 409)
  holder ← gets (get_incident c snapshot.incident_id)
  incident ← or_raise holder (application "INCIDENT_NOT_FOUND" 404)
  approval ←
      insert_approval
        (approval_row c snapshot parameters editable_parameter_keys expires_in_seconds now)
  record_event c incident "approval.requested" now (user_or_system c)
      (("approvalId", uuid approval.id)
        ∷ ("policyDecisionId", uuid snapshot.id)
        ∷ ("capability", text snapshot.capability)
        ∷ ("expiresAt", instant approval.expires_at)
        ∷ [])
      (about "approval" approval.id approval.version)
  pure approval

-- The row that `_resolve` leaves.
abbrev pub resolved : Context → ApprovalRecord → ApprovalStatus → ℕ → Option String → ApprovalRecord
resolved c a status now comment = record a {
  status = status;
  decided_by = some (actor_or_system c);
  decided_at = some now;
  decision_comment = comment;
  version = a.version + 1;
  updated_at = now;
}

-- The flush of the changes to a row of `approvals`.
abbrev pub save_approval : ApprovalRecord → Tx (Unit {0})
save_approval a =
    modify
      (λ db. record db { approvals = Tables.save (λ (r : ApprovalRecord). r.id) a db.approvals })

-- `_resolve`, for the row that it leaves
unfoldable pub resolve : Context → ApprovalRecord → ℕ → Tx (Unit {0})
resolve c row now = do
  save_approval row
  holder ← gets (get_incident c row.incident_id)
  incident ← or_raise holder (application "INCIDENT_NOT_FOUND" 404)
  record_event c incident "approval.resolved" now (user_or_system c)
      (("approvalId", uuid row.id) ∷ ("status", text (value row.status)) ∷ [])
      (about "approval" row.id row.version)

-- The end of `decide`: the row, its proposal and its wait.
unfoldable pub settle :
    Context → (FingerprintPayload → ℕ) → ApprovalRecord → ℕ → ℕ → ℕ → ℕ → Tx ApprovalRecord
settle c digest row now approval_now policy_now action_now = do
  resolve c row now
  resolve_approval c digest row now approval_now policy_now action_now
  resolve_subject c InvestigationHitlSubjectType.approval row.id (value row.status) now
  pure row

-- `actor is not None and record.requested_by == actor.actor_id`
abbrev pub is_requester : Context → ApprovalRecord → Bool
is_requester none a = false
is_requester (some p) a = same_actor a.requested_by (actor_id p)

-- `not set(parameter_edits) - set(record.editable_parameter_keys)`
unfoldable pub only_editable : List String → Payload → Bool
only_editable keys edits = all (λ (e : String × Value). contains keys e.0) edits

-- `{**parameters, **edits}`
unfoldable pub merge : Payload → Payload → Payload
merge parameters [] = parameters
merge parameters ((k, v) ∷ edits) = merge (set_item k v parameters) edits

abbrev pub target_of : ApprovalDecision → ApprovalStatus
target_of approve = approved
target_of reject = rejected

-- The part of `decide` for a decision to approve.
unfoldable pub check_policy : Context → ApprovalRecord → ℕ → ApprovalDecision → Tx (Unit {0})
check_policy c a policy_now reject = pure tt
check_policy c a policy_now approve = do
  found ← gets (get_decision c a.policy_decision_id)
  snapshot ← or_raise found (application "POLICY_DECISION_NOT_FOUND" 409)
  current ← revalidate_snapshot c snapshot policy_now
  raise_if (not current.allowed || not current.approval_required)
      (application "POLICY_REVALIDATION_FAILED" 409)

-- The arguments of `decide`.
pub record DecisionInput : Type 0 where
  pub decision : ApprovalDecision
  pub expected_version : ℕ
  pub comment : Option String
  pub parameter_edits : Payload

-- The row that `decide` leaves for an approval in time.
abbrev pub decided : Context → ApprovalRecord → DecisionInput → ℕ → ApprovalRecord
decided c a r now =
    resolved c (record a { parameters = merge a.parameters r.parameter_edits })
      (target_of r.decision) now r.comment

abbrev pub out_of_time : Context → ApprovalRecord → ℕ → ApprovalRecord
out_of_time c a now = resolved c a expired now (some "Approval expired")

-- The instants that `decide` reads from the clock, its own first.
pub record Clock : Type 0 where
  pub now : ℕ
  pub check : ℕ
  pub approval : ℕ
  pub policy : ℕ
  pub action : ℕ

-- `decide` for a pending approval, by whether its time is over.
unfoldable pub decide_pending :
    Context
    → (FingerprintPayload → ℕ)
    → ApprovalRecord
    → DecisionInput
    → Clock
    → Bool
    → Tx ApprovalRecord
decide_pending c digest a r t true =
    settle c digest (out_of_time c a t.now) t.now t.approval t.policy t.action
decide_pending c digest a r t false = do
  raise_if (is_requester c a) (application "APPROVAL_SELF_DECISION_FORBIDDEN" 403)
  raise_if (not (only_editable a.editable_parameter_keys r.parameter_edits))
      (application "APPROVAL_PARAMETER_EDIT_FORBIDDEN" 422)
  check_policy c a t.check r.decision
  settle c digest (decided c a r t.now) t.now t.approval t.policy t.action

-- `decide`
unfoldable pub decide :
    Context → (FingerprintPayload → ℕ) → ℕ → DecisionInput → Clock → Tx ApprovalRecord
decide c digest approval_id r t = do
  found ← gets (get_approval c approval_id)
  a ← or_raise found (application "APPROVAL_NOT_FOUND" 404)
  raise_if (not (a.version == r.expected_version)) (application "APPROVAL_VERSION_CONFLICT" 409)
  raise_if (not (a.status == pending)) (application "APPROVAL_ALREADY_RESOLVED" 409)
  decide_pending c digest a r t (leb a.expires_at t.now)
