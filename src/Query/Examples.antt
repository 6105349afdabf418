-- ===== src/Query/Examples.antt =====
-- Paths and filters, and the theorems of the query modules at them.
use schemaforge.Prelude.{ℕ, none, some, [], ◌∷◌, ◌≡◌, ◌≢◌, ◌↔◌, refl, All, ok, err}
use schemaforge.Prelude.Int.{pos}
use schemaforge.Core.FieldType.{FieldType}
use schemaforge.Core.Schema.{SchemaDefinition, field_new}
use schemaforge.Core.Value.{Externals, DynamicValue}
use schemaforge.Query.Path.{
  FieldPath, parse, segments, as_dotted, invalid_field_path, type_mismatch, unknown_field,
  invalid_limit,
}
use schemaforge.Query.Path.RoundTrip.{IsSegment, parse-eq-ok_iff}
use schemaforge.Query.Filter.{
  Filter, eq, contains, and, negate, no_filters, filter, validate_filter,
}
use schemaforge.Query.Request
use schemaforge.Query.Request.{Query, validate, validate_iff}
use schemaforge.Query.Validate.{validate_filter_iff}
use schemaforge.Query.Good.{GoodFilter}

abbrev plain : Externals
plain = record { F64 = ℕ; DateTime = ℕ; Json = ℕ }

parse_two : parse "company.industry" ≡ ok (record { first = "company"; others = "industry" ∷ [] })
unfolding parse
parse_two = refl

parse_trailing_dot :
    parse "company." ≡ err (invalid_field_path "company." "path contains empty segment")
unfolding parse
parse_trailing_dot = refl

abbrev industry : FieldPath
industry = record { first = "company"; others = "industry" ∷ [] }

parse-eq-ok_iff_example :
    (parse "company.industry" ≡ ok industry)
    ↔ ((as_dotted industry ≡ "company.industry") × All IsSegment (segments industry))
parse-eq-ok_iff_example = parse-eq-ok_iff "company.industry" industry

abbrev contact : SchemaDefinition
contact = record {
  id = "schema_1";
  name = "Contact";
  fields =
      field_new "name" (FieldType.text (record { max_length = none }))
      ∷ field_new "age" (FieldType.integer (record { min = none; max = none }))
      ∷ [];
  annotations = [];
}

abbrev adult : Filter plain
adult = and (
    filter (eq (record { first = "age"; others = [] }) (DynamicValue.integer (pos 18)))
      (filter (negate (contains (record { first = "name"; others = [] }) "x")) no_filters))

abbrev wrong : Filter plain
wrong = and (
    filter (contains (record { first = "age"; others = [] }) "x")
      (filter (eq (record { first = "mail"; others = [] }) DynamicValue.null) no_filters))

-- All errors are reported, in the order of the leaves.
validate_wrong :
    validate_filter wrong contact
    ≡ err (type_mismatch "age" "Text" "Integer" ∷ unknown_field "mail" "Contact" ∷ [])
unfolding validate_filter
validate_wrong = refl

validate_filter_iff_example : (validate_filter adult contact ≡ ok tt) ↔ GoodFilter contact adult
validate_filter_iff_example = validate_filter_iff contact adult

abbrev page : Query plain
page = record (Request.query_new "schema_1") { limit = some 0; offset = some 20 }

validate_iff_example :
    ((validate page ≡ ok tt) ↔ (page.limit ≢ some 0))
    × ((validate page ≡ err (invalid_limit 0)) ↔ (page.limit ≡ some 0))
validate_iff_example = validate_iff page
