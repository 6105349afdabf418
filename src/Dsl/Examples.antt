-- ===== src/Dsl/Examples.antt =====
-- Tests of the Dsl modules, and the properties at concrete inputs.
use schemaforge.Dsl.Types.{parse_type}
use schemaforge.Dsl.Annotations.{parse_annotation}
use schemaforge.Dsl.Outcome.{give_up, done}
use schemaforge.Core.Constraints.{Cardinality}
use schemaforge.Dsl.RoundTrip.Lossy.{parse_type-print_relation_array, parse_annotation-print_secret}
use schemaforge.Core.Names.{schema_name_new, field_name_new}
use schemaforge.Core.Names.Valid.{schema_name_new_iff, field_name_new_iff}
use schemaforge.Core.Tokens.Match.{find_arm}
use schemaforge.Dsl.Decimal.{digits, to_decimal}
use schemaforge.Dsl.Printer.{spell, name, name_token, print_bound, print_modifier}
use schemaforge.Dsl.Printer.Notes.{print_annotation}
use schemaforge.Dsl.Printer.Schemas.{print, print_type, print_schema, print_schemas}
use schemaforge.Dsl.RoundTrip.{place}
use schemaforge.Dsl.RoundTrip.Schemas.{PrintableSchema}
use schemaforge.Dsl.RoundTrip.Files.{parse_file-print_schemas}
use schemaforge.Prelude.{
  ◌++◌, arith, ℕ, String, ◌≡◌, ◌≢◌, ◌⊎◌, refl, some, none, [], ◌∷◌, ◌*◌, ◌^◌, All, ok, err,
}
use schemaforge.Core.Schema.{SchemaDefinition}
use schemaforge.Core.Constraints.{required}
use schemaforge.Core.FieldType.{FieldType}
use schemaforge.Core.Annotation.{Annotation}
use schemaforge.Core.Names.{
  is_pascal_case, find_reserved_schema_name, is_snake_case, find_reserved_field_name,
}
use schemaforge.Dsl.Token.{Token, Span, SpannedToken}
use schemaforge.Dsl.Outcome.{Tokens}
use schemaforge.Dsl.Literals.{parse_size_literal, unquote_string}
use schemaforge.Dsl.Parse.{parse_file, Schemas, Errors}
use schemaforge.Dsl.Good.{GoodSchema}
use schemaforge.Dsl.Good.Accepted.{parse_file-total, parse_file-GoodSchema}

mebibytes : parse_size_literal "25mib" ≡ some (25 * 1024 ^ 2)
unfolding parse_size_literal
mebibytes = refl

escapes : ◌≡◌ {A = String} (unquote_string "\"a\\nb\\qc\\\"") "a\nb\\qc\\"
unfolding unquote_string
escapes = refl

abbrev nowhere : Span
nowhere = record { start = 0; end = 0 }

abbrev tok : Token → String → SpannedToken
tok t s = record { token = t; span = nowhere; text = s }

abbrev id_of : ℕ → String
id_of n = "schema_01"

-- @version(2) schema Contact { name: text(max: 255) required }
abbrev contact_tokens : Tokens
contact_tokens =
    tok Token.at "@"
    ∷ tok Token.ident "version"
    ∷ tok Token.lparen "("
    ∷ tok Token.integer_literal "2"
    ∷ tok Token.rparen ")"
    ∷ tok Token.schema "schema"
    ∷ tok Token.ident "Contact"
    ∷ tok Token.lbrace "{"
    ∷ tok Token.ident "name"
    ∷ tok Token.colon ":"
    ∷ tok Token.text "text"
    ∷ tok Token.lparen "("
    ∷ tok Token.ident "max"
    ∷ tok Token.colon ":"
    ∷ tok Token.integer_literal "255"
    ∷ tok Token.rparen ")"
    ∷ tok Token.required "required"
    ∷ tok Token.rbrace "}"
    ∷ []

abbrev contact : SchemaDefinition
contact = record {
  id = "schema_01";
  name = "Contact";
  fields =
      record {
        name = "name";
        field_type = FieldType.text (record { max_length = some 255 });
        modifiers = required ∷ [];
        annotations = [];
        derived_from = none;
      }
      ∷ [];
  annotations = Annotation.version 2 ∷ [];
}

contact_parses : parse_file id_of contact_tokens ≡ some (ok (contact ∷ []))
unfolding parse_file is_pascal_case find_reserved_schema_name is_snake_case find_reserved_field_name
contact_parses = refl

parse_file-total_example :
    ((schemas : Schemas) × (parse_file id_of contact_tokens ≡ some (ok schemas)))
    ⊎ ((errors : Errors) × (parse_file id_of contact_tokens ≡ some (err errors)) × (errors ≢ []))
parse_file-total_example = parse_file-total id_of contact_tokens

parse_file-GoodSchema_example : All GoodSchema (contact ∷ [])
parse_file-GoodSchema_example =
    parse_file-GoodSchema id_of contact_tokens (contact ∷ []) contact_parses

contact_prints :
    print contact ≡ "@version(2)\nschema Contact {\n    name: text(max: 255) required\n}\n"
unfolding print print_schema print_type print_bound print_modifier print_annotation to_decimal
    digits name name_token spell find_arm
contact_prints = refl

abbrev everywhere : ℕ → Span
everywhere n = nowhere

contact-PrintableSchema : PrintableSchema contact
unfolding name_token find_arm is_pascal_case find_reserved_schema_name is_snake_case
    find_reserved_field_name schema_name_new field_name_new
contact-PrintableSchema =
    let (same, pascal, free) = (schema_name_new_iff "Contact" "Contact").0 refl in
    let (same', snake, free') = (field_name_new_iff "name" "name").0 refl in
    (
      (pascal, free),
      refl,
      (λ e. cc e),
      (((snake, free'), refl, omega arith, (tt, tt), refl, refl), tt),
      (tt, tt),
      ((omega arith, omega arith), tt),
      (tt, tt),
    )

parse_file-print_schemas_example :
    parse_file id_of (place everywhere (print_schemas (contact ∷ []))) ≡ some (ok (contact ∷ []))
parse_file-print_schemas_example =
    parse_file-print_schemas id_of (contact ∷ []) everywhere (contact-PrintableSchema, tt)
      (refl, tt)

contact-name_token : name_token "Contact" ≡ Token.ident
unfolding name_token find_arm
contact-name_token = refl

parse_type-print_relation_array_example :
    parse_type nowhere give_up (
      place everywhere
        (print_type 1 (FieldType.array (FieldType.relation "Contact" Cardinality.one)))
      ++ [])
    ≡ done (FieldType.relation "Contact" Cardinality.many) []
parse_type-print_relation_array_example =
    parse_type-print_relation_array nowhere give_up 1 "Contact" everywhere []
      contact-PrintableSchema.0 contact-name_token tt

parse_annotation-print_secret_example :
    parse_annotation
      (place everywhere (print_annotation (Annotation.webhook [] none (some "s3cret"))) ++ [])
    ≡ done (Annotation.webhook [] none none) []
parse_annotation-print_secret_example =
    parse_annotation-print_secret (some "s3cret") everywhere [] tt
