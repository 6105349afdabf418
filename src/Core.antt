-- ===== src/Core.antt =====
-- crates/schema-forge-core/src/types: names, field types, annotations, schema definitions.
pub mod Error
pub mod Names
pub mod Text
pub mod Tokens
pub mod Constraints
pub mod Mime
pub mod FieldType
pub mod Annotation
pub mod Schema
pub mod Value
pub mod Inverse
mod Examples
