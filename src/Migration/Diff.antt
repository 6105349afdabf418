-- ===== src/Migration/Diff.antt =====
-- crates/schema-forge-core/src/migration.rs: `DiffEngine`.
pub mod Lookup
pub mod Fields
pub mod Modifiers
pub mod Hooks
pub mod Engine
