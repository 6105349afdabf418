-- ===== src/Core/Tokens.antt =====
-- The closed vocabularies of crates/schema-forge-core/src/types with their tokens.
pub mod Match
pub mod Display
pub mod Lifecycle
pub mod RoundTrip
