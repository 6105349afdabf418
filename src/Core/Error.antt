-- ===== src/Core/Error.antt =====
-- crates/schema-forge-core/src/error.rs
use schemaforge.Prelude.{ℕ, String}
use schemaforge.Prelude.Int.{ℤ}

pub data SchemaError : Type 0 where
  invalid_schema_name : String → SchemaError
  invalid_field_name : String → SchemaError
  reserved_schema_name : String → SchemaError
  reserved_field_name : String → SchemaError
  invalid_schema_version : ℕ → SchemaError
  empty_enum_variants : SchemaError
  empty_enum_variant : SchemaError
  duplicate_enum_variant : String → SchemaError
  invalid_integer_range : ℤ → ℤ → SchemaError
  invalid_float_string : String → SchemaError
  duplicate_field_name : String → SchemaError
  duplicate_annotation : String → SchemaError
  empty_fields : SchemaError
  invalid_mime_pattern : String → SchemaError
