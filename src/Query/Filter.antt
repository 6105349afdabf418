-- ===== src/Query/Filter.antt =====
-- crates/schema-forge-core/src/query.rs: `Filter` and its validation against a schema. What a function
-- pushes onto `errors` is the list that it returns here.
use schemaforge.Prelude.{
  String, Bool, true, false, not, ◌&&◌, Option, none, some, List, [], ◌∷◌, ◌++◌, for_each, is_some,
  if◌then◌else◌, Result, ok, err,
}
use schemaforge.Core.FieldType.{FieldType}
use schemaforge.Core.Schema.{FieldDefinition, SchemaDefinition, field}
use schemaforge.Core.Value.{Externals, DynamicValue}
use schemaforge.Query.Path.{
  FieldPath, QueryError, unknown_field, type_mismatch, empty_in_values, root, is_simple, as_dotted,
}

-- `Filters` is the `Vec<Filter>` of a conjunction or a disjunction.
mutual
  pub data Filter (X : Externals) : Type 0 where
    eq ne gt gte lt lte : FieldPath → DynamicValue X → Filter X
    contains starts_with : FieldPath → String → Filter X
    in_set : FieldPath → List (DynamicValue X) → Filter X
    and or : Filters X → Filter X
    negate : Filter X → Filter X

  pub data Filters (X : Externals) : Type 0 where
    no_filters : Filters X
    filter : Filter X → Filters X → Filters X

unfoldable pub check_field_exists : FieldPath → SchemaDefinition → List QueryError
unfolding field
check_field_exists path schema =
    if is_some (field schema (root path)) then [] else unknown_field (root path) schema.name ∷ []

unfoldable pub is_text_like : FieldType → Bool
is_text_like (FieldType.text c) = true
is_text_like FieldType.rich_text = true
is_text_like (FieldType.enum v) = true
is_text_like _ = false

unfoldable pub field_type_name : FieldType → String
field_type_name (FieldType.text c) = "Text"
field_type_name FieldType.rich_text = "RichText"
field_type_name (FieldType.integer c) = "Integer"
field_type_name (FieldType.float c) = "Float"
field_type_name FieldType.boolean = "Boolean"
field_type_name FieldType.date_time = "DateTime"
field_type_name (FieldType.enum v) = "Enum"
field_type_name FieldType.json = "Json"
field_type_name (FieldType.relation t c) = "Relation"
field_type_name (FieldType.array t) = "Array"
field_type_name (FieldType.composite fs) = "Composite"
field_type_name (FieldType.file c) = "File"

unfoldable pub text_errors : FieldPath → Option FieldDefinition → List QueryError
unfolding is_text_like field_type_name
text_errors path none = []
text_errors path (some f) =
    if is_simple path && not (is_text_like f.field_type)
    then type_mismatch (root path) "Text" (field_type_name f.field_type) ∷ []
    else []

unfoldable pub match_errors : SchemaDefinition → FieldPath → List QueryError
unfolding check_field_exists text_errors field
match_errors schema path =
    check_field_exists path schema ++ text_errors path (field schema (root path))

abbrev pub report : List QueryError → Result (Unit {0}) (List QueryError)
report [] = ok tt
report (e ∷ es) = err (e ∷ es)

module _ {X : Externals} where
  unfoldable pub dynamic_value_type_name : DynamicValue X → String
  dynamic_value_type_name DynamicValue.null = "Null"
  dynamic_value_type_name (DynamicValue.text s) = "Text"
  dynamic_value_type_name (DynamicValue.integer i) = "Integer"
  dynamic_value_type_name (DynamicValue.float x) = "Float"
  dynamic_value_type_name (DynamicValue.boolean b) = "Boolean"
  dynamic_value_type_name (DynamicValue.date_time d) = "DateTime"
  dynamic_value_type_name (DynamicValue.enum s) = "Enum"
  dynamic_value_type_name (DynamicValue.json j) = "Json"
  dynamic_value_type_name (DynamicValue.array vs) = "Array"
  dynamic_value_type_name (DynamicValue.composite es) = "Composite"
  dynamic_value_type_name (DynamicValue.ref id) = "Ref"
  dynamic_value_type_name (DynamicValue.ref_array ids) = "RefArray"

  abbrev is_null : DynamicValue X → Bool
  is_null DynamicValue.null = true
  is_null _ = false

  -- The `match` on the type, with a `matches!` on the value in each arm.
  unfoldable pub compatible : FieldType → DynamicValue X → Bool
  compatible (FieldType.text c) v = elim v [ DynamicValue.text s ↦ true | _ ↦ false ]
  compatible FieldType.rich_text v = elim v [ DynamicValue.text s ↦ true | _ ↦ false ]
  compatible (FieldType.integer c) v = elim v [ DynamicValue.integer i ↦ true | _ ↦ false ]
  compatible (FieldType.float c) v = elim v [
    | DynamicValue.float x ↦ true
    | DynamicValue.integer i ↦ true
    | _ ↦ false
  ]
  compatible FieldType.boolean v = elim v [ DynamicValue.boolean b ↦ true | _ ↦ false ]
  compatible FieldType.date_time v = elim v [ DynamicValue.date_time d ↦ true | _ ↦ false ]
  compatible (FieldType.enum vs) v = elim v [
    | DynamicValue.enum s ↦ true
    | DynamicValue.text s ↦ true
    | _ ↦ false
  ]
  compatible _ v = true

  unfoldable pub check_type_compat : String → FieldType → DynamicValue X → List QueryError
  unfolding compatible field_type_name dynamic_value_type_name
  check_type_compat name type v =
      if is_null v
      then []
      else if not (compatible type v)
      then type_mismatch name (field_type_name type) (dynamic_value_type_name v) ∷ []
      else []

  -- What a comparison checks once the field is looked up.
  unfoldable pub comparison_errors :
      FieldPath → DynamicValue X → Option FieldDefinition → List QueryError
  comparison_errors path v none = []
  comparison_errors path v (some f) =
      if is_simple path then check_type_compat (root path) f.field_type v else []

  unfoldable pub in_set_errors :
      FieldPath → List (DynamicValue X) → Option FieldDefinition → List QueryError
  in_set_errors path vs none = []
  in_set_errors path vs (some f) =
      if is_simple path then for_each (check_type_compat (root path) f.field_type) vs else []

  unfoldable pub empty_set_errors : FieldPath → List (DynamicValue X) → List QueryError
  unfolding as_dotted
  empty_set_errors path [] = empty_in_values (as_dotted path) ∷ []
  empty_set_errors path (v ∷ vs) = []

  module _ (schema : SchemaDefinition) where
    unfoldable pub compare_errors : FieldPath → DynamicValue X → List QueryError
    unfolding check_field_exists comparison_errors field
    compare_errors path v =
        check_field_exists path schema ++ comparison_errors path v (field schema (root path))

    unfoldable pub member_errors : FieldPath → List (DynamicValue X) → List QueryError
    unfolding check_field_exists empty_set_errors in_set_errors field
    member_errors path vs =
        check_field_exists path schema
        ++ (empty_set_errors path vs ++ in_set_errors path vs (field schema (root path)))

    unfoldable mutual
      unfolding compare_errors match_errors member_errors

      pub collect_filter_errors : Filter X → List QueryError
      collect_filter_errors (eq path v) = compare_errors path v
      collect_filter_errors (ne path v) = compare_errors path v
      collect_filter_errors (gt path v) = compare_errors path v
      collect_filter_errors (gte path v) = compare_errors path v
      collect_filter_errors (lt path v) = compare_errors path v
      collect_filter_errors (lte path v) = compare_errors path v
      collect_filter_errors (contains path s) = match_errors schema path
      collect_filter_errors (starts_with path s) = match_errors schema path
      collect_filter_errors (in_set path vs) = member_errors path vs
      collect_filter_errors (and fs) = collect_all_errors fs
      collect_filter_errors (or fs) = collect_all_errors fs
      collect_filter_errors (negate f) = collect_filter_errors f

      pub collect_all_errors : Filters X → List QueryError
      collect_all_errors no_filters = []
      collect_all_errors (filter f fs) = collect_filter_errors f ++ collect_all_errors fs

  unfoldable pub validate_filter : Filter X → SchemaDefinition → Result (Unit {0}) (List QueryError)
  unfolding collect_filter_errors
  validate_filter f schema = report (collect_filter_errors schema f)
