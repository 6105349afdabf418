-- ===== src/Dsl/Parse.antt =====
-- `parse_schema`, `parse_file` and the recovery of crates/schema-forge-dsl/src/parser.rs.
use schemaforge.Prelude.{
  ℕ, zero, suc, ◌-◌, String, Bool, true, false, Option, none, some, List, [], ◌∷◌, length, leb,
  if◌then◌else◌, Result, ok, err,
}
use schemaforge.Core.Names.{FieldName, schema_name_new}
use schemaforge.Core.FieldType.{FieldAnnotation, list}
use schemaforge.Core.Annotation.{Annotation, kind}
use schemaforge.Core.Tokens.Display.{ListHint}
use schemaforge.Core.Schema.{
  FieldDefinition, SchemaDefinition, find_duplicate, field_key, schema_new,
}
use schemaforge.Dsl.Token.{Token, Span, lbrace, rbrace}
use schemaforge.Dsl.Error.{
  DslError, core_schema_error, invalid_schema_name, empty_schema, duplicate_annotation,
  multiple_primary_list_hints,
}
use schemaforge.Dsl.Outcome.{
  Tokens, Outcome, done, failed, out_of_fuel, Parser, pure, raise, ◌>>=◌, ◌>>◌,
}
use schemaforge.Dsl.Cursor.{
  expect, expect_ident, current_span, end_of_input, from_result, with_fuel,
}
use schemaforge.Dsl.Params.{push}
use schemaforge.Dsl.Types.{no_duplicate}
use schemaforge.Dsl.Fields.{parse_fields}
use schemaforge.Dsl.Annotations.{parse_annotations}

abbrev pub no_duplicate_kind : Span → Option Annotation → Parser (Unit {0})
no_duplicate_kind span none = pure tt
no_duplicate_kind span (some a) = raise (duplicate_annotation (kind a) span)

-- `FieldDefinition::list_hint`
abbrev pub list_hint : List FieldAnnotation → Option ListHint
list_hint [] = none
list_hint (list hint ∷ annotations) = some hint
list_hint (_ ∷ annotations) = list_hint annotations

abbrev pub is_primary : Option ListHint → Bool
is_primary (some ListHint.primary) = true
is_primary _ = false

abbrev pub has_primary : FieldDefinition → Bool
has_primary f = is_primary (list_hint f.annotations)

-- The second field with the primary hint ends the loop; `first` is the one before it.
abbrev pub second_primary :
    Span → Option FieldName → FieldName → Parser (Unit {0}) → Parser (Unit {0})
second_primary span none name rest = rest
second_primary span (some first) name rest = raise (multiple_primary_list_hints first name span)

unfoldable pub one_primary : Span → Option FieldName → List FieldDefinition → Parser (Unit {0})
one_primary span first [] = pure tt
one_primary span first (f ∷ fs) =
    let unchanged = one_primary span first fs in
    let found_text = one_primary span (some f.name) fs in
    if has_primary f then second_primary span first f.name found_text else unchanged

abbrev pub not_empty : Span → String → List FieldDefinition → Parser (Unit {0})
not_empty span name [] = raise (empty_schema name span)
not_empty span name (f ∷ fs) = pure tt

-- What is checked behind the closing brace, in its order.
unfoldable pub schema_checks :
    Span → String → String → List FieldDefinition → List Annotation → Parser SchemaDefinition
unfolding find_duplicate one_primary schema_new
schema_checks span id name fields annotations = do
  not_empty span name fields
  no_duplicate span (find_duplicate field_key [] fields)
  no_duplicate_kind span (find_duplicate kind [] annotations)
  one_primary span none fields
  from_result (λ e. core_schema_error e span) (schema_new id name fields annotations)

-- The id is the one that `SchemaId::new` draws.
unfoldable pub parse_schema : Span → String → Parser SchemaDefinition
unfolding parse_annotations parse_fields schema_name_new schema_checks
parse_schema eof id = do
  start ← current_span eof
  annotations ← parse_annotations
  expect Token.schema
  tok ← expect_ident "schema name"
  name ← from_result (λ e. invalid_schema_name tok.text tok.span) (schema_name_new tok.text)
  expect lbrace
  fields ← with_fuel (parse_fields eof)
  close ← expect rbrace
  schema_checks (record { start = start.start; end = close.span.end }) id name fields annotations

abbrev pub recover_token : Token → ℕ → Tokens → Tokens → (ℕ → Tokens) → Tokens
recover_token Token.lbrace depth here rest go = go (suc depth)
recover_token Token.rbrace depth here rest go = if leb depth 1 then rest else go (depth - 1)
recover_token Token.schema zero here rest go = here
recover_token Token.at zero here rest go = here
recover_token _ depth here rest go = go depth

-- The depth is never negative: a closing brace that takes it to 0 or below ends the recovery.
unfoldable pub recover_to_next_schema : ℕ → Tokens → Tokens
recover_to_next_schema depth [] = []
recover_to_next_schema depth (st ∷ ts) =
    recover_token st.token depth (st ∷ ts) ts λ d. recover_to_next_schema d ts

abbrev pub Schemas : Type 0
Schemas = List SchemaDefinition

abbrev pub Errors : Type 0
Errors = List DslError

-- `none` where the fuel ends.
abbrev pub FileResult : Type 0
FileResult = Option (Result Schemas Errors)

unfoldable pub after_schema :
    Outcome SchemaDefinition
    → Schemas
    → Errors
    → (Schemas → Errors → Tokens → FileResult)
    → FileResult
unfolding recover_to_next_schema
after_schema (done schema ts) schemas errors go = go (push schemas schema) errors ts
after_schema (failed e ts) schemas errors go =
    go schemas (push errors e) (recover_to_next_schema 0 ts)
after_schema out_of_fuel schemas errors go = none

abbrev pub conclude : Schemas → Errors → Result Schemas Errors
conclude schemas [] = ok schemas
conclude schemas (e ∷ errors) = err (e ∷ errors)

module _ (eof : Span) (new_id : ℕ → String) where
  unfoldable pub file_loop : ℕ → Schemas → Errors → Tokens → FileResult
  unfolding parse_schema after_schema
  file_loop f schemas errors [] = some (conclude schemas errors)
  file_loop zero schemas errors (st ∷ ts) = none
  file_loop (suc f) schemas errors (st ∷ ts) =
      after_schema (parse_schema eof (new_id (length schemas)) (st ∷ ts)) schemas errors
        (file_loop f)

unfoldable pub parse_file : (ℕ → String) → Tokens → FileResult
unfolding file_loop end_of_input
parse_file new_id ts = file_loop (end_of_input ts) new_id (length ts) [] [] ts
