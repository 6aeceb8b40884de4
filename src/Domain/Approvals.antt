-- ===== src/Domain/Approvals.antt =====
-- backend/app/domain/approvals.py
use ops_pilot_ai.Base.{String, HasEquals, of_discrete}

pub data ApprovalStatus : Type 0 where
  pending approved rejected expired : ApprovalStatus

pub data ApprovalDecision : Type 0 where
  approve reject : ApprovalDecision

unfoldable pub ApprovalStatus-discrete : Discrete ApprovalStatus
ApprovalStatus-discrete = hlevel

instance abbrev pub approval_status_eq : HasEquals ApprovalStatus
approval_status_eq = of_discrete ApprovalStatus-discrete

-- `ApprovalStatus.value`
unfoldable pub value : ApprovalStatus → String
value pending = "pending"
value approved = "approved"
value rejected = "rejected"
value expired = "expired"
