-- ===== src/Queue.antt =====
-- The durable job queue: packages/fallow-coordinator/src/fallow_coordinator/queue.
pub mod Rows
pub mod Tables
pub mod Status
pub mod Lease
pub mod Requeue
pub mod Backup
pub mod Complete
pub mod Submit
pub mod Units
pub mod Invariant
pub mod Runs
pub mod Exclusive
pub mod Fairness
pub mod Completion
pub mod Refusal
pub mod Repeats
pub mod Sweeps
pub mod Retry
pub mod Durability
pub mod Jobs
pub mod Members
pub mod Orphans
mod Scenarios
