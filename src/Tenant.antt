-- ===== src/Tenant.antt =====
-- crates/schema-forge-backend/src/tenant.rs: the hierarchy of tenants.
pub mod Config
pub mod Build
pub mod Pigeonhole
pub mod Loops
pub mod Total
pub mod Order
pub mod Placed
pub mod Complete
pub mod Coverage
pub mod Hierarchy
mod Examples
