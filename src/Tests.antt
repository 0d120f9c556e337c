-- ===== src/Tests.antt =====
-- Runs of the development on small inputs.
pub mod Data
pub mod Decisions
pub mod Gate
pub mod Chains
pub mod Outcomes
pub mod Plans
pub mod Keys
pub mod Signed
pub mod Routes
pub mod Governed
pub mod Policies
