-- ===== src/Policies.antt =====
-- backend/app/services/policies.py and schemas/policies.py: the policy engine.
pub mod Rules
pub mod Service
pub mod Windows
pub mod Decisions
pub mod Priority
pub mod Capacity
pub mod Snapshots
pub mod Management
pub mod Revocation
pub mod Scoping
