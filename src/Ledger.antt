-- ===== src/Ledger.antt =====
-- app/ledger: the hash-chained audit ledger, one child for each source file, then the proofs.
pub mod Models
pub mod HashChain
pub mod Service
pub mod Verifier
pub mod Chain
pub mod Order
pub mod Build
pub mod Tamper
pub mod Windows
pub mod Integration
pub mod Recording
mod Tests
