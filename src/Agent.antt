-- ===== src/Agent.antt =====
-- packages/fallow-agent: yielding the machine to its user.
pub mod Preempt
pub mod Yield
pub mod Override
pub mod Episodes
mod Scenarios
