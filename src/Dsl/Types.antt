-- ===== src/Dsl/Types.antt =====
-- The types of fields in crates/schema-forge-dsl/src/parser.rs, down to the fields of a composite.
pub mod File
use schemaforge.Prelude.{
  ℕ, String, Bool, Option, none, some, List, [], ◌∷◌, any, ◌==◌, if◌then◌else◌, Result,
}
use schemaforge.Prelude.Int.{ℤ, ltb_ℤ}
use schemaforge.Core.Error.{SchemaError}
use schemaforge.Core.Names.{FieldName, SchemaName, field_name_new, schema_name_new}
use schemaforge.Core.Constraints.{
  TextConstraints, IntegerConstraints, FloatConstraints, with_range, enum_variants_new, Cardinality,
}
use schemaforge.Core.FieldType.{FieldType, Fields, end, field}
use schemaforge.Core.Schema.{FieldDefinition, find_duplicate, field_key}
use schemaforge.Core.Tokens.Match.{find_arm}
use schemaforge.Dsl.Token.{
  Token, Span, SpannedToken, lbracket, rbracket, lparen, rparen, lbrace, rbrace, comma,
}
use schemaforge.Dsl.Error.{
  DslError, unexpected_token, core_schema_error, invalid_integer_literal, invalid_integer_range,
  empty_enum_variants, duplicate_enum_variant, invalid_schema_name, duplicate_field_name,
}
use schemaforge.Dsl.Literals.{parse_unsigned, parse_signed, unquote_string}
use schemaforge.Dsl.Outcome.{Parser, pure, raise, ◌>>=◌, ◌>>◌, branch}
use schemaforge.Dsl.Cursor.{
  found_text, peek_is, skip, next_token, expect, expect_ident, expect_string_literal, current_span,
  from_option, from_result, comma_separated,
}
use schemaforge.Dsl.Params.{push, Params, parse_named_params}
use schemaforge.Dsl.Types.File.{parse_file_params}

-- `.find(|(k, _)| k == key).map(|(_, v)| v.parse()).transpose().map_err(..)`
abbrev pub parsed_param :
    {A : Type 0} → DslError → (String → Option A) → Option String → Parser (Option A)
parsed_param e parse none = pure none
parsed_param e parse (some v) = do n ← from_option e (parse v); pure (some n)

module _ (eof : Span) where
  -- `(key: N)` of `text` and `float`
  unfoldable pub u32_param : String → String → Parser (Option ℕ)
  unfolding parse_named_params find_arm parse_unsigned
  u32_param key message = do
    skip
    params ← parse_named_params
    expect rparen
    span ← current_span eof
    parsed_param (invalid_integer_literal message span) (parse_unsigned 32) (find_arm key params)

  unfoldable pub parse_text_params : Parser TextConstraints
  unfolding u32_param
  parse_text_params = do
    given ← peek_is lparen
    branch given (do max ← u32_param "max" "max parameter"; pure (record { max_length = max }))
        (pure (record { max_length = none }))

  unfoldable pub parse_float_params : Parser FloatConstraints
  unfolding u32_param
  parse_float_params = do
    given ← peek_is lparen
    branch given
        (do p ← u32_param "precision" "precision parameter"; pure (record { precision = p }))
        (pure (record { precision = none }))

unfoldable pub i64_param : Span → Option String → Parser (Option ℤ)
unfolding parse_signed
i64_param span none = pure none
i64_param span (some v) = parsed_param (invalid_integer_literal v span) parse_signed (some v)

unfoldable pub extract_i64_param : Span → Params → String → Parser (Option ℤ)
unfolding find_arm i64_param
extract_i64_param span params key = i64_param span (find_arm key params)

unfoldable pub integer_range : Span → Option ℤ → Option ℤ → Parser IntegerConstraints
unfolding with_range
integer_range span (some min) (some max) =
    branch (ltb_ℤ max min) (raise (invalid_integer_range min max span))
      (from_result (λ e. core_schema_error e span) (with_range min max))
integer_range span min max = pure (record { min = min; max = max })

module _ (eof : Span) where
  unfoldable pub parse_integer_params : Parser IntegerConstraints
  unfolding parse_named_params extract_i64_param integer_range
  parse_integer_params = do
    given ← peek_is lparen
    branch given
        (do
          span ← current_span eof
          skip
          params ← parse_named_params
          expect rparen
          min ← extract_i64_param span params "min"
          max ← extract_i64_param span params "max"
          integer_range span min max)
        (pure (record { min = none; max = none }))

-- The variants read so far are those `seen`.
unfoldable pub enum_variant : List String → Parser (List String)
unfolding unquote_string
enum_variant variants = do
  tok ← expect_string_literal
  branch (any (λ v. v == unquote_string tok.text) variants)
      (raise (duplicate_enum_variant (unquote_string tok.text) tok.span))
      (pure (push variants (unquote_string tok.text)))

abbrev pub spanning : Span → Span → Span
spanning a b = record { start = a.start; end = b.end }

module _ (eof : Span) where
  unfoldable pub parse_enum_type : Parser FieldType
  unfolding enum_variant comma_separated enum_variants_new
  parse_enum_type = do
    span ← current_span eof
    expect lparen
    empty ← peek_is rparen
    branch empty (do close ← next_token ""; raise (empty_enum_variants (spanning span close.span)))
        (do
          variants ← comma_separated enum_variant []
          expect rparen
          checked ← from_result (λ e. core_schema_error e span) (enum_variants_new variants)
          pure (FieldType.enum checked))

  -- by the keyword
  unfoldable pub primitive_type : SpannedToken → Token → Parser FieldType
  unfolding parse_text_params parse_integer_params parse_float_params parse_enum_type
      parse_file_params
  primitive_type tok Token.text = do c ← parse_text_params eof; pure (FieldType.text c)
  primitive_type tok Token.rich_text = pure FieldType.rich_text
  primitive_type tok Token.integer = do c ← parse_integer_params eof; pure (FieldType.integer c)
  primitive_type tok Token.float = do c ← parse_float_params eof; pure (FieldType.float c)
  primitive_type tok Token.boolean = pure FieldType.boolean
  primitive_type tok Token.date_time = pure FieldType.date_time
  primitive_type tok Token.enum = parse_enum_type
  primitive_type tok Token.json = pure FieldType.json
  primitive_type tok Token.file = do c ← parse_file_params eof; pure (FieldType.file c)
  primitive_type tok _ = raise (
      unexpected_token
        "type name (text, integer, float, boolean, datetime, enum, richtext, json, file, composite, or ->)"
        (found_text tok) tok.span)

  unfoldable pub parse_primitive_type : Parser FieldType
  unfolding primitive_type
  parse_primitive_type = do tok ← next_token "type name"; primitive_type tok tok.token

-- `[` was seen; `]` must follow.
abbrev pub brackets : Parser (Unit {0})
brackets = do skip; expect rbracket; pure tt

unfoldable pub parse_relation_type : Parser FieldType
unfolding schema_name_new
parse_relation_type = do
  expect Token.arrow
  tok ← expect_ident "relation target schema name"
  target ← from_result (λ e. invalid_schema_name tok.text tok.span) (schema_name_new tok.text)
  many ← peek_is lbracket
  branch many (do brackets; pure (FieldType.relation target Cardinality.many))
      (pure (FieldType.relation target Cardinality.one))

unfoldable pub to_fields : List FieldDefinition → Fields
to_fields [] = end
to_fields (f ∷ fs) =
    field f.name f.field_type f.modifiers f.annotations f.derived_from (to_fields fs)

abbrev pub no_duplicate : Span → Option FieldDefinition → Parser (Unit {0})
no_duplicate span none = pure tt
no_duplicate span (some f) = raise (duplicate_field_name f.name span)

module _ (eof : Span) (parse_fields : Parser (List FieldDefinition)) where
  unfoldable pub parse_composite_type : Parser FieldType
  unfolding find_duplicate to_fields
  parse_composite_type = do
    expect Token.composite
    expect lbrace
    fields ← parse_fields
    expect rbrace
    span ← current_span eof
    no_duplicate span (find_duplicate field_key [] fields)
    pure (FieldType.composite (to_fields fields))

  unfoldable pub parse_primitive_or_array : Parser FieldType
  unfolding parse_primitive_type
  parse_primitive_or_array = do
    base ← parse_primitive_type eof
    array ← peek_is lbracket
    branch array (do brackets; pure (FieldType.array base)) (pure base)

  unfoldable pub parse_type : Parser FieldType
  unfolding parse_composite_type parse_relation_type parse_primitive_or_array
  parse_type = do
    relation ← peek_is Token.arrow
    composite ← peek_is Token.composite
    branch relation parse_relation_type
        (branch composite parse_composite_type parse_primitive_or_array)
