-- ===== src/Hitl.antt =====
-- The human review of compiled rules, app/services/hitl_service.py.
pub mod Models
pub mod Gate
pub mod Service
pub mod Refusal
pub mod GateLaws
pub mod Gating
pub mod Reachable
pub mod Steps
pub mod Effects
pub mod Circulars
mod Tests
