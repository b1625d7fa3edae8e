-- ===== src/Resilience.antt =====
-- The dead letter queue and the retry policy, app/resilience.
pub mod Queue
pub mod Indexes
pub mod Transitions
pub mod Reading
pub mod Listing
pub mod Retry
pub mod Causes
mod Tests
