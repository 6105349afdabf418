-- ===== src/Dsl/Fields.antt =====
-- Fields, modifiers and field annotations in crates/schema-forge-dsl/src/parser.rs.
pub mod Notes
use schemaforge.Prelude.{
  ℕ, zero, suc, String, Bool, true, false, Option, none, some, List, [], ◌∷◌, length, if◌then◌else◌,
}
use schemaforge.Prelude.Int.{ℤ}
use schemaforge.Core.Names.{FieldName, field_name_new}
use schemaforge.Core.Constraints.{FieldModifier, DefaultValue}
use schemaforge.Core.FieldType.{FieldType, FieldAnnotation}
use schemaforge.Core.Schema.{FieldDefinition}
use schemaforge.Dsl.Token.{Token, Span, SpannedToken, same_token, lparen, rparen, rbrace, colon, at}
use schemaforge.Dsl.Error.{
  DslError, unexpected_token, invalid_integer_literal, invalid_field_name, unexpected_end_of_input,
}
use schemaforge.Dsl.Literals.{parse_signed, unquote_string}
use schemaforge.Dsl.Outcome.{Tokens, Parser, pure, raise, give_up, ◌>>=◌, ◌>>◌, branch}
use schemaforge.Dsl.Cursor.{
  found_text, next_token, expect, expect_ident, from_option, from_result, with_fuel, repeat_loop,
  repeated,
}
use schemaforge.Dsl.Types.{parse_type}
use schemaforge.Dsl.Fields.Notes.{parse_field_annotations}

-- A `FloatLiteral` token is digits, a point and digits, behind an optional sign: `parse::<f64>` of
-- `DefaultValue::float` reads every such text.
unfoldable pub literal_value : SpannedToken → Token → Parser DefaultValue
unfolding unquote_string parse_signed
literal_value tok Token.string_literal = pure (DefaultValue.string (unquote_string tok.text))
literal_value tok Token.integer_literal = do
  n ← from_option (invalid_integer_literal tok.text tok.span) (parse_signed tok.text)
  pure (DefaultValue.integer n)
literal_value tok Token.float_literal = pure (DefaultValue.float tok.text)
literal_value tok Token.true_keyword = pure (DefaultValue.boolean true)
literal_value tok Token.false_keyword = pure (DefaultValue.boolean false)
literal_value tok _ = raise (
    unexpected_token "default value (string, integer, float, or boolean)" (found_text tok) tok.span)

unfoldable pub parse_default_value : Parser DefaultValue
unfolding literal_value
parse_default_value = do
  expect lparen
  tok ← next_token "default value"
  value ← literal_value tok tok.token
  expect rparen
  pure value

-- by the keyword that is peeked
unfoldable pub modifier : Token → Option (Parser FieldModifier)
unfolding parse_default_value
modifier Token.required = some do next_token ""; pure FieldModifier.required
modifier Token.indexed = some do next_token ""; pure FieldModifier.indexed
modifier Token.default =
    some do next_token ""; value ← parse_default_value; pure (FieldModifier.default value)
modifier _ = none

unfoldable pub parse_modifiers : Parser (List FieldModifier)
unfolding modifier repeated
parse_modifiers = repeated modifier

module _ (eof : Span) (nested : Parser (List FieldDefinition)) where
  unfoldable pub parse_field : Parser FieldDefinition
  unfolding field_name_new parse_type parse_modifiers parse_field_annotations
  parse_field = do
    tok ← expect_ident "field name"
    name ← from_result (λ e. invalid_field_name tok.text tok.span) (field_name_new tok.text)
    expect colon
    field_type ← parse_type eof nested
    modifiers ← parse_modifiers
    annotations ← parse_field_annotations eof field_type
    pure (record {
      name = name;
      field_type = field_type;
      modifiers = modifiers;
      annotations = annotations;
      derived_from = none;
    })

  unfoldable pub field_before : Token → Option (Parser FieldDefinition)
  unfolding parse_field
  field_before t = if same_token t rbrace then none else some parse_field

-- The fuel bounds the nesting of composites.
unfoldable pub parse_fields : Span → ℕ → Parser (List FieldDefinition)
unfolding field_before repeated
parse_fields eof zero = give_up
parse_fields eof (suc f) = repeated (field_before eof (parse_fields eof f))
