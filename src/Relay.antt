-- ===== src/Relay.antt =====
-- packages/fallow-coordinator/src/fallow_coordinator/site_relay: the rendezvous of site agents and the
-- relay of their responses.
pub mod Stream
pub mod Delivery
pub mod Rows
pub mod Registry
pub mod Responses
pub mod Claims
pub mod Calls
pub mod Answers
pub mod Keeping
pub mod Fenced
pub mod Fencing
pub mod Finality
pub mod Rendezvous
mod Scenarios
