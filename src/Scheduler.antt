-- ===== src/Scheduler.antt =====
-- packages/fallow-coordinator/src/fallow_coordinator/scheduler: who may run work, and who is chosen.
pub mod Eligibility
pub mod Policies
pub mod RoundRobin
pub mod Placement
pub mod Enrolment
pub mod Rotation
pub mod Speculative
mod Scenarios
