-- ===== src/Domain/Actions.antt =====
-- backend/app/domain/actions.py
use ops_pilot_ai.Base.{String, List, [], ◌∷◌, HasEquals, of_discrete}

-- `SUPPORTED_ACTION_CAPABILITIES`
abbrev pub supported_action_capabilities : List String
supported_action_capabilities =
    "container.restart" ∷ "service.reload" ∷ "traffic_probe.pause" ∷ "traffic_probe.resume"
    ∷ "health.check" ∷ []

pub data ActionProposalStatus : Type 0 where
  proposed denied awaiting_approval action_ready rejected cancelled : ActionProposalStatus

pub data ActionRequestStatus : Type 0 where
  ready dispatching running applied verifying succeeded failed : ActionRequestStatus
  verification_failed compensating compensated escalated unknown cancelled : ActionRequestStatus

pub data ActionVerificationStatus : Type 0 where
  queued running passed failed unknown : ActionVerificationStatus

pub data CompensationStatus : Type 0 where
  pending approved rejected dispatching running succeeded failed unknown : CompensationStatus
  escalated : CompensationStatus

unfoldable pub ActionProposalStatus-discrete : Discrete ActionProposalStatus
ActionProposalStatus-discrete = hlevel

instance abbrev pub action_proposal_status_eq : HasEquals ActionProposalStatus
action_proposal_status_eq = of_discrete ActionProposalStatus-discrete

-- `ActionProposalStatus.value`
unfoldable pub proposal_status_value : ActionProposalStatus → String
proposal_status_value proposed = "proposed"
proposal_status_value denied = "denied"
proposal_status_value awaiting_approval = "awaiting_approval"
proposal_status_value action_ready = "action_ready"
proposal_status_value rejected = "rejected"
proposal_status_value ActionProposalStatus.cancelled = "cancelled"

unfoldable pub ActionRequestStatus-discrete : Discrete ActionRequestStatus
ActionRequestStatus-discrete = hlevel

instance abbrev pub action_request_status_eq : HasEquals ActionRequestStatus
action_request_status_eq = of_discrete ActionRequestStatus-discrete

-- `ActionRequestStatus.value`
unfoldable pub status_value : ActionRequestStatus → String
status_value ready = "ready"
status_value dispatching = "dispatching"
status_value running = "running"
status_value applied = "applied"
status_value verifying = "verifying"
status_value succeeded = "succeeded"
status_value failed = "failed"
status_value verification_failed = "verification_failed"
status_value compensating = "compensating"
status_value compensated = "compensated"
status_value escalated = "escalated"
status_value unknown = "unknown"
status_value cancelled = "cancelled"

unfoldable pub ActionVerificationStatus-discrete : Discrete ActionVerificationStatus
ActionVerificationStatus-discrete = hlevel

instance abbrev pub action_verification_status_eq : HasEquals ActionVerificationStatus
action_verification_status_eq = of_discrete ActionVerificationStatus-discrete
