-- ===== src/Invariants.antt =====
-- Predicates on the tables, through a step of the lifecycle.
pub mod Columns
pub mod Sessions
pub mod Codes
pub mod Audit
pub mod Keys
pub mod Unused
pub mod Roles
