-- ===== src/Claims/Projection.antt =====
-- `resolve_projection` and `project_value` of
-- crates/schema-forge-acton/src/authz/principal_claims.rs.
use schemaforge.Prelude.{String, Option, none, some, List, [], ◌∷◌, Result, ok, err}
use schemaforge.Core.Constraints.{Cardinality}
use schemaforge.Core.FieldType.{FieldType}
use schemaforge.Core.Value.{Externals, EntityId, DynamicValue, Values, no_values, value}
use schemaforge.Claims.Json.{Json, Items, no_items, item, PrincipalClaimType}
use schemaforge.Dsl.Decimal.{to_signed_decimal}

pub data UserFieldProjection : Type 0 where
  text_to_string : UserFieldProjection
  integer_to_long : UserFieldProjection
  boolean_to_bool : UserFieldProjection
  text_array_to_set_of_string : UserFieldProjection
  relation_one_to_string : UserFieldProjection
  relation_many_to_set_of_string : UserFieldProjection

-- Where an error shows the type of a field, it carries the type.
pub data PrincipalClaimsError : Type 0 where
  reserved_name : String → PrincipalClaimsError
  invalid_name : String → PrincipalClaimsError
  empty_claim_key : String → PrincipalClaimsError
  default_type_mismatch : String → PrincipalClaimType → String → PrincipalClaimsError
  unknown_user_field : String → String → PrincipalClaimsError
  user_field_type_mismatch : String → String → FieldType → PrincipalClaimType → PrincipalClaimsError
  user_value_type_mismatch : String → String → String → PrincipalClaimType → PrincipalClaimsError
  hidden_user_field : String → String → PrincipalClaimsError
  unprojectable_field_type : String → String → FieldType → PrincipalClaimsError
  null_required_user_field : String → String → PrincipalClaimsError

abbrev pub Projected : Type 0
Projected = Result UserFieldProjection PrincipalClaimsError

abbrev pub array_projection : String → String → FieldType → Projected
array_projection claim name (FieldType.text c) = ok UserFieldProjection.text_array_to_set_of_string
array_projection claim name (FieldType.relation target Cardinality.one) =
    ok UserFieldProjection.relation_many_to_set_of_string
array_projection claim name inner =
    err (unprojectable_field_type claim name (FieldType.array inner))

-- The arms of the match, for each type of the field.
unfoldable pub resolve_projection : String → String → FieldType → PrincipalClaimType → Projected
resolve_projection claim name (FieldType.text c) PrincipalClaimType.string_type =
    ok UserFieldProjection.text_to_string
resolve_projection claim name (FieldType.integer c) PrincipalClaimType.long_type =
    ok UserFieldProjection.integer_to_long
resolve_projection claim name FieldType.boolean PrincipalClaimType.bool_type =
    ok UserFieldProjection.boolean_to_bool
resolve_projection claim name (FieldType.array inner) PrincipalClaimType.set_of_string =
    array_projection claim name inner
resolve_projection claim name (FieldType.relation target Cardinality.one)
      PrincipalClaimType.string_type =
    ok UserFieldProjection.relation_one_to_string
resolve_projection claim name (FieldType.relation target Cardinality.many)
      PrincipalClaimType.set_of_string =
    ok UserFieldProjection.relation_many_to_set_of_string
resolve_projection claim name FieldType.rich_text declared =
    err (unprojectable_field_type claim name FieldType.rich_text)
resolve_projection claim name (FieldType.float c) declared =
    err (unprojectable_field_type claim name (FieldType.float c))
resolve_projection claim name FieldType.date_time declared =
    err (unprojectable_field_type claim name FieldType.date_time)
resolve_projection claim name (FieldType.enum variants) declared =
    err (unprojectable_field_type claim name (FieldType.enum variants))
resolve_projection claim name FieldType.json declared =
    err (unprojectable_field_type claim name FieldType.json)
resolve_projection claim name (FieldType.composite fields) declared =
    err (unprojectable_field_type claim name (FieldType.composite fields))
resolve_projection claim name (FieldType.file c) declared =
    err (unprojectable_field_type claim name (FieldType.file c))
resolve_projection claim name (FieldType.array inner) declared =
    err (unprojectable_field_type claim name (FieldType.array inner))
resolve_projection claim name field_type declared =
    err (user_field_type_mismatch claim name field_type declared)

abbrev pub push_front : Json → Option Items → Option Items
push_front j none = none
push_front j (some items) = some (item j items)

abbrev pub as_array : Option Items → Option Json
as_array none = none
as_array (some items) = some (Json.array items)

module _ {X : Externals} where
  -- The texts of the array, `none` at the first value that is no text.
  unfoldable pub text_items : Values X → Option Items
  text_items no_values = some no_items
  text_items (value (DynamicValue.text s) vs) = push_front (Json.string s) (text_items vs)
  text_items (value _ vs) = none

  unfoldable pub ref_items : Values X → Option Items
  ref_items no_values = some no_items
  ref_items (value (DynamicValue.ref id) vs) = push_front (Json.string id) (ref_items vs)
  ref_items (value _ vs) = none

abbrev pub id_items : List EntityId → Items
id_items [] = no_items
id_items (id ∷ ids) = item (Json.string id) (id_items ids)

module _ {X : Externals} where
  unfoldable pub project_value : UserFieldProjection → DynamicValue X → Option Json
  unfolding text_items ref_items to_signed_decimal
  project_value UserFieldProjection.text_to_string (DynamicValue.text s) = some (Json.string s)
  project_value UserFieldProjection.integer_to_long (DynamicValue.integer z) =
      some (Json.number (some z) (to_signed_decimal z))
  project_value UserFieldProjection.boolean_to_bool (DynamicValue.boolean b) = some (Json.boolean b)
  project_value UserFieldProjection.text_array_to_set_of_string (DynamicValue.array vs) =
      as_array (text_items vs)
  project_value UserFieldProjection.relation_one_to_string (DynamicValue.ref id) =
      some (Json.string id)
  project_value UserFieldProjection.relation_many_to_set_of_string (DynamicValue.ref_array ids) =
      some (Json.array (id_items ids))
  project_value UserFieldProjection.relation_many_to_set_of_string (DynamicValue.array vs) =
      as_array (ref_items vs)
  project_value _ _ = none

  unfoldable pub describe_dynamic_kind : DynamicValue X → String
  describe_dynamic_kind DynamicValue.null = "null"
  describe_dynamic_kind (DynamicValue.text s) = "text"
  describe_dynamic_kind (DynamicValue.integer z) = "integer"
  describe_dynamic_kind (DynamicValue.float x) = "float"
  describe_dynamic_kind (DynamicValue.boolean b) = "boolean"
  describe_dynamic_kind (DynamicValue.date_time d) = "datetime"
  describe_dynamic_kind (DynamicValue.enum s) = "enum"
  describe_dynamic_kind (DynamicValue.json j) = "json"
  describe_dynamic_kind (DynamicValue.array vs) = "array"
  describe_dynamic_kind (DynamicValue.composite es) = "composite"
  describe_dynamic_kind (DynamicValue.ref id) = "ref"
  describe_dynamic_kind (DynamicValue.ref_array ids) = "ref_array"
