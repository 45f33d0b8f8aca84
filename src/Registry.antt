-- ===== src/Registry.antt =====
-- packages/fallow-coordinator/src/fallow_coordinator/registry: enrolment, authentication, presence and
-- the model catalogue.
pub mod Rows
pub mod Catalogue
pub mod Tokens
pub mod Presence
pub mod Views
pub mod Calls
pub mod Spending
pub mod Voiding
pub mod Enrolment
pub mod Agents
pub mod Revoked
pub mod Hidden
pub mod Revocation
pub mod Liveness
pub mod Fence
pub mod Identity
mod Scenarios
