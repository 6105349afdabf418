-- ===== src/Claims.antt =====
-- The claims of a principal: crates/schema-forge-acton/src/authz/principal_claims.rs.
pub mod Json
pub mod Projection
pub mod Config
pub mod Extract
pub mod Accepted
pub mod Built
mod Examples
