-- ===== src/Access.antt =====
-- Who may do what: crates/schema-forge-acton/src, authz/role_ranks.rs and access.rs.
pub mod Ranks
pub mod Engine
pub mod Check
pub mod Fields
pub mod Hidden
pub mod Scope
mod Examples
