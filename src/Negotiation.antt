-- ===== src/Negotiation.antt =====
-- app/negotiation: the domain agents vote, an arbiter breaks a deadlock, a human decides the rest.
pub mod Models
pub mod Agents
pub mod Consensus
pub mod Arbiter
pub mod Orchestrator
pub mod Settling
pub mod Outcomes
pub mod Progress
pub mod Tests
