-- ===== src/Grievance.antt =====
-- The filing of grievances with SCORES, app/grievance_escalation.
pub mod Queue
pub mod Filing
pub mod Submitting
pub mod Tracking
pub mod Calls
pub mod Retries
mod Tests
