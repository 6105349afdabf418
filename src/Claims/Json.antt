-- ===== src/Claims/Json.antt =====
-- `serde_json::Value` and the tests on it in crates/schema-forge-acton/src/authz/principal_claims.rs.
use schemaforge.Prelude.{String, Bool, true, false, ◌&&◌, Option, is_some}
use schemaforge.Prelude.Int.{ℤ}

-- A number is what `as_i64` gives for it, and its text.
mutual
  pub data Json : Type 0 where
    null : Json
    boolean : Bool → Json
    number : Option ℤ → String → Json
    string : String → Json
    array : Items → Json
    object : Members → Json

  pub data Items : Type 0 where
    no_items : Items
    item : Json → Items → Items

  pub data Members : Type 0 where
    no_members : Members
    member : String → Json → Members → Members

-- The types of Cedar that a claim can have.
pub data PrincipalClaimType : Type 0 where
  string_type long_type bool_type set_of_string : PrincipalClaimType

-- `{:?}`
abbrev pub debug_name : PrincipalClaimType → String
debug_name PrincipalClaimType.string_type = "String"
debug_name PrincipalClaimType.long_type = "Long"
debug_name PrincipalClaimType.bool_type = "Bool"
debug_name PrincipalClaimType.set_of_string = "SetOfString"

unfoldable pub describe_json_kind : Json → String
describe_json_kind Json.null = "null"
describe_json_kind (Json.boolean b) = "bool"
describe_json_kind (Json.number i text) = "number"
describe_json_kind (Json.string s) = "string"
describe_json_kind (Json.array items) = "array"
describe_json_kind (Json.object _) = "object"

abbrev pub is_string : Json → Bool
is_string (Json.string s) = true
is_string _ = false

unfoldable pub all_strings : Items → Bool
all_strings no_items = true
all_strings (item v items) = is_string v && all_strings items

unfoldable pub json_matches_type : Json → PrincipalClaimType → Bool
unfolding all_strings
json_matches_type (Json.string s) PrincipalClaimType.string_type = true
json_matches_type (Json.number i text) PrincipalClaimType.long_type = is_some i
json_matches_type (Json.boolean b) PrincipalClaimType.bool_type = true
json_matches_type (Json.array items) PrincipalClaimType.set_of_string = all_strings items
json_matches_type _ _ = false
