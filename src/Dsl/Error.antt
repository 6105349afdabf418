-- ===== src/Dsl/Error.antt =====
-- `DslError` of crates/schema-forge-dsl/src/error.rs. The vocabulary errors hold the text without the
-- constant list of valid words.
use schemaforge.Prelude.{String, List}
use schemaforge.Prelude.Int.{ℤ}
use schemaforge.Core.Error.{SchemaError}
use schemaforge.Dsl.Token.{Span}

pub data DslError : Type 0 where
  invalid_token : Span → DslError
  unexpected_token : String → String → Span → DslError
  unexpected_end_of_input : String → DslError
  invalid_schema_name : String → Span → DslError
  invalid_field_name : String → Span → DslError
  duplicate_field_name : String → Span → DslError
  duplicate_annotation : String → Span → DslError
  empty_schema : String → Span → DslError
  invalid_integer_literal : String → Span → DslError
  invalid_float_literal : String → Span → DslError
  core_schema_error : SchemaError → Span → DslError
  empty_enum_variants : Span → DslError
  duplicate_enum_variant : String → Span → DslError
  invalid_integer_range : ℤ → ℤ → Span → DslError
  unknown_annotation : String → Span → DslError
  unknown_widget_type : String → Span → DslError
  unknown_format_type : String → Span → DslError
  enum_colors_on_non_enum : Span → DslError
  empty_enum_colors : Span → DslError
  unknown_enum_colors_variant : String → List String → Span → DslError
  duplicate_enum_colors_variant : String → Span → DslError
  unknown_enum_color : String → Span → DslError
  unknown_list_hint : String → Span → DslError
  multiple_primary_list_hints : String → String → Span → DslError
  invalid_file_param : String → Span → DslError
  invalid_size_literal : String → Span → DslError
