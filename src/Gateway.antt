-- ===== src/Gateway.antt =====
-- packages/fallow-coordinator/src/fallow_coordinator/gateway: routing interactive requests.
pub mod Inflight
pub mod Affinity
pub mod Stickiness
pub mod Admission
pub mod Lanes
pub mod Turns
pub mod Quota
pub mod Bucket
mod Scenarios
