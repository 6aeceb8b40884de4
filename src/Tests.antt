-- ===== src/Tests.antt =====
-- Concrete data, and the theorems at it.
mod World
mod Domain
mod Policies
mod Incidents
mod Locks
mod Actions
mod Approvals
mod Hypotheses
mod Rules
mod Plans
mod Runner
mod Outbox
