-- ===== src/Execution.antt =====
-- app/execution: the evaluation of a transaction against the deployed policies.
pub mod Models
pub mod HitlQueue
pub mod Registry
pub mod Cache
pub mod Evaluator
pub mod Decisions
pub mod Queueing
pub mod Lookups
pub mod Staleness
mod Tests
