-- ===== src/Governance.antt =====
-- app/governance: the kill switch.
pub mod KillSwitch
pub mod Switching
mod Tests
