-- ===== src/Compiler.antt =====
-- app/compiler: an audited rule becomes JSON-Logic, unless a flag blocks it.
pub mod Models
pub mod JsonLogic
pub mod Meaning
pub mod Entities
pub mod Thresholds
pub mod Compiled
pub mod Facts
pub mod Flags
pub mod Rego
pub mod Pipeline
pub mod Conflicts
pub mod Gate
pub mod Trees
pub mod Totality
pub mod Approved
pub mod Tests
