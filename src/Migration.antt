-- ===== src/Migration.antt =====
-- crates/schema-forge-core/src/migration.rs: steps, plans and the diff of two schema versions.
pub mod Step
pub mod Plan
pub mod Diff
pub mod Effect
pub mod Loops
pub mod Local
pub mod Stages
pub mod Refines
pub mod Marks
pub mod Presence
pub mod Gaps
pub mod Scan
pub mod Safety
pub mod Protection
pub mod Identity
pub mod Hooks
mod Examples
