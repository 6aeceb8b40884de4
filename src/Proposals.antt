-- ===== src/Proposals.antt =====
-- backend/app/services/action_proposals.py: what the decision of an approval does to the proposal
-- that waits for it (`resolve_approval`).
use ops_pilot_ai.Base.{
  ℕ, ◌+◌, String, ◌<>◌, str, Bool, true, false, not, Option, none, some, [], ◌∷◌, ◌==◌, application,
  if◌then◌else◌,
}
use ops_pilot_ai.Domain.Actions.{
  ActionProposalStatus, awaiting_approval, action_ready, action_proposal_status_eq,
  proposal_status_value,
}
use ops_pilot_ai.Domain.Approvals.{approved, approval_status_eq}
use ops_pilot_ai.Storage.Tables
use ops_pilot_ai.Storage.Rows.{text, uuid, ApprovalRecord, ActionProposalRecord, IncidentRecord}
use ops_pilot_ai.Storage.Database.{Tx, pure, gets, or_raise, modify, ◌>>=◌, ◌>>◌}
use ops_pilot_ai.Storage.Database.Scope.{Context}
use ops_pilot_ai.Storage.Repositories.{get_incident, get_proposal_by_approval}
use ops_pilot_ai.Events.{record_event, about}
use ops_pilot_ai.Actions.{ActionInput, FingerprintPayload, create, id_or_null}

-- The flush of the changes to a row of `action_proposals`.
abbrev pub save_proposal : ActionProposalRecord → Tx (Unit {0})
save_proposal p = modify (λ db. record db {
  action_proposals = Tables.save (λ (r : ActionProposalRecord). r.id) p db.action_proposals;
})

abbrev pub record_proposal :
    Context → ActionProposalRecord → String → ℕ → Option IncidentRecord → Tx (Unit {0})
record_proposal c p event_type now none = pure tt
record_proposal c p event_type now (some incident) =
    record_event c incident event_type now "agent"
      (("proposalId", uuid p.id)
        ∷ ("runId", uuid p.run_id)
        ∷ ("capability", text p.capability)
        ∷ ("status", text (proposal_status_value p.status))
        ∷ ("policyDecisionId", id_or_null p.policy_decision_id)
        ∷ ("approvalId", id_or_null p.approval_id)
        ∷ ("actionId", id_or_null p.action_request_id)
        ∷ [])
      (about "action_proposal" p.id p.version)

-- `_event`, after the changes to the proposal
unfoldable pub proposal_event : Context → ActionProposalRecord → String → ℕ → Tx (Unit {0})
proposal_event c p event_type now = do
  incident ← gets (get_incident c p.incident_id)
  record_proposal c p event_type now incident

-- The call of `ActionRequestService.create` in `resolve_approval`. The text of a UUID is spelled as
-- its number.
abbrev pub proposal_input : ActionProposalRecord → ApprovalRecord → ℕ → ActionInput
proposal_input p approval snapshot_id = record {
  policy_decision_id = snapshot_id;
  approval_id = some approval.id;
  parameters = approval.parameters;
  verification_criteria = p.verification_criteria;
  rollback_capability = p.rollback_capability;
  idempotency_key = "agent:" <> (str p.run_id <> (":" <> p.node_execution_id));
}

-- The proposal after its approval was decided.
abbrev pub resolved_proposal :
    ActionProposalRecord → ActionProposalStatus → Option ℕ → ℕ → ActionProposalRecord
resolved_proposal p status action_id now = record p {
  status = status;
  action_request_id = action_id;
  version = p.version + 1;
  updated_at = now;
}

unfoldable pub finish_proposal :
    Context → ActionProposalRecord → ActionProposalStatus → Option ℕ → ℕ → Tx (Unit {0})
finish_proposal c p status action_id now = do
  save_proposal (resolved_proposal p status action_id now)
  proposal_event c (resolved_proposal p status action_id now) "action.proposal_resolved" now

-- The part of `resolve_approval` for a proposal that waits, by whether the approval is APPROVED.
unfoldable pub resolve_waiting :
    Context
    → (FingerprintPayload → ℕ)
    → ActionProposalRecord
    → ApprovalRecord
    → ℕ
    → ℕ
    → ℕ
    → ℕ
    → Bool
    → Tx (Unit {0})
resolve_waiting c digest p approval now approval_now policy_now action_now false =
    finish_proposal c p ActionProposalStatus.rejected p.action_request_id now
resolve_waiting c digest p approval now approval_now policy_now action_now true = do
  snapshot_id ← or_raise p.policy_decision_id (application "ACTION_PROPOSAL_POLICY_MISSING" 409)
  (action, again) ←
      create c digest (proposal_input p approval snapshot_id) approval_now policy_now action_now
  finish_proposal c p action_ready (some action.id) now

abbrev resolve_found :
    Context
    → (FingerprintPayload → ℕ)
    → ApprovalRecord
    → ℕ
    → ℕ
    → ℕ
    → ℕ
    → Option ActionProposalRecord
    → Tx (Unit {0})
resolve_found c digest approval now approval_now policy_now action_now none = pure tt
resolve_found c digest approval now approval_now policy_now action_now (some p) =
    if not (p.status == awaiting_approval)
    then pure tt
    else resolve_waiting c digest p approval now approval_now policy_now action_now
        (approval.status == approved)

-- `resolve_approval`; its result is not used. The clock is read by `create`.
unfoldable pub resolve_approval :
    Context → (FingerprintPayload → ℕ) → ApprovalRecord → ℕ → ℕ → ℕ → ℕ → Tx (Unit {0})
resolve_approval c digest approval now approval_now policy_now action_now = do
  found ← gets (get_proposal_by_approval c approval.id)
  resolve_found c digest approval now approval_now policy_now action_now found
