-- ===== src/Domain.antt =====
-- backend/app/domain: the enumerations and the state machines of the control plane.
pub mod Machine
pub mod Incidents
pub mod Hypotheses
pub mod Investigations
pub mod Plans
pub mod Actions
pub mod Approvals
pub mod Policies
pub mod RunnerTasks
pub mod Runners
pub mod Security
