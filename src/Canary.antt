-- ===== src/Canary.antt =====
-- The canary of a candidate policy, app/canary: the tally of shadow comparisons, its store, the
-- decisions of the sweep, and promotion and rollback.
pub mod Models
pub mod Store
pub mod Parity
pub mod Orchestrator
pub mod Sweep
pub mod Tallies
pub mod Lifecycle
pub mod Reach
pub mod Verdicts
mod Tests
