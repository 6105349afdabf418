-- ===== src/Query.antt =====
-- crates/schema-forge-core/src/query.rs: field paths, filters, queries and their validation.
pub mod Path
pub mod Filter
pub mod Good
pub mod Validate
pub mod Request
mod Examples
