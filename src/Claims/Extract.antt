-- ===== src/Claims/Extract.antt =====
-- `project_user_fields` and `extract_into` of
-- crates/schema-forge-acton/src/authz/principal_claims.rs. Cedar's expressions are a parameter.
use schemaforge.Prelude.{
  String, Bool, true, false, Option, none, some, List, [], ◌∷◌, Result, ok, err, ◌>>=◌, ◌==◌,
  if◌then◌else◌,
}
use schemaforge.Prelude.Int.{ℤ}
use schemaforge.Core.Value.{Externals, DynamicValue}
use schemaforge.Access.Engine.{Entity, get_field}
use schemaforge.Claims.Json.{
  Json, Items, no_items, item, PrincipalClaimType, debug_name, describe_json_kind,
}
use schemaforge.Claims.Projection.{
  PrincipalClaimsError, null_required_user_field, user_value_type_mismatch, project_value,
  describe_dynamic_kind,
}
use schemaforge.Claims.Config.{
  PrincipalClaimMapping, PrincipalClaimMappings, ResolvedClaimSource, Checked,
}
use Prim.Native.String

-- The claims of a token by name, without their order.
abbrev pub Custom : Type 0
Custom = List (String × Json)

unfoldable pub insert_key : {A : Type 0} → String → A → List (String × A) → List (String × A)
insert_key key a [] = (key, a) ∷ []
insert_key key a ((k, b) ∷ entries) =
    let rest = insert_key key a entries in if k == key then (key, a) ∷ entries else (k, b) ∷ rest

unfoldable pub get_key : {A : Type 0} → String → List (String × A) → Option A
get_key key [] = none
get_key key ((k, b) ∷ entries) = if k == key then some b else get_key key entries

abbrev pub skip_or_refuse : Bool → PrincipalClaimsError → Checked (Option Json)
skip_or_refuse true e = err e
skip_or_refuse false e = ok none

abbrev pub projected : Option Json → PrincipalClaimsError → Checked (Option Json)
projected none e = err e
projected (some j) e = ok (some j)

abbrev pub keep_claim : String → Option Json → Custom → Custom
keep_claim name none out = out
keep_claim name (some j) out = insert_key name j out

module _ {X : Externals} where
  -- The claim of a mapping, `none` where there is none to insert.
  unfoldable pub user_value :
      PrincipalClaimMapping → ResolvedClaimSource → Option (DynamicValue X) → Checked (Option Json)
  unfolding project_value describe_dynamic_kind
  user_value m s none =
      skip_or_refuse m.required (null_required_user_field m.attribute_name s.user_field)
  user_value m s (some DynamicValue.null) =
      skip_or_refuse m.required (null_required_user_field m.attribute_name s.user_field)
  user_value m s (some v) = projected (project_value s.projection v) (
      user_value_type_mismatch m.attribute_name s.user_field (describe_dynamic_kind v) m.claim_type)

  abbrev pub project_source :
      Entity X → PrincipalClaimMapping → Option ResolvedClaimSource → Checked (Option Json)
  project_source user m none = ok none
  project_source user m (some s) = user_value m s (get_field s.user_field user.fields)

  unfoldable pub project_loop : Entity X → List PrincipalClaimMapping → Custom → Checked Custom
  unfolding user_value insert_key get_field
  project_loop user [] out = ok out
  project_loop user (m ∷ ms) out =
      project_source user m m.source >>= λ j. project_loop user ms (keep_claim m.claim_name j out)

  unfoldable pub project_user_fields : PrincipalClaimMappings → Entity X → Checked Custom
  unfolding project_loop
  project_user_fields ms user = project_loop user ms.by_name []

pub data AdapterError : Type 0 where
  unrepresentable_value : String → String → AdapterError

-- The constructors of `RestrictedExpression`.
pub record Expressions : Type 1 where
  pub Expr : Type 0
  pub new_string : String → Expr
  pub new_long : ℤ → Expr
  pub new_bool : Bool → Expr
  pub new_set : List Expr → Expr

abbrev pub principal_field : PrincipalClaimMapping → String
principal_field m = String.◌++◌ "principal." m.attribute_name

abbrev pub in_claim : PrincipalClaimMapping → String → String
in_claim m text = String.◌++◌ "claim '" (String.◌++◌ m.claim_name text)

abbrev pub mismatch : PrincipalClaimMapping → Json → AdapterError
mismatch m v =
    let declared = String.◌++◌ " but mapping declares type " (debug_name m.claim_type) in
    unrepresentable_value (principal_field m)
      (in_claim m (String.◌++◌ "' has JSON kind " (String.◌++◌ (describe_json_kind v) declared)))

abbrev pub element_mismatch : PrincipalClaimMapping → Json → AdapterError
element_mismatch m v = unrepresentable_value (principal_field m) (
    in_claim m (
      String.◌++◌ "' set element has JSON kind "
        (String.◌++◌ (describe_json_kind v) " but mapping requires strings")))

abbrev pub missing_claim : PrincipalClaimMapping → AdapterError
missing_claim m =
    unrepresentable_value (principal_field m)
      (String.◌++◌ "required claim '" (String.◌++◌ m.claim_name "' missing from token"))

module _ (E : Expressions) (m : PrincipalClaimMapping) where
  abbrev pub long_of : Json → Option ℤ → Result E.Expr AdapterError
  long_of v none = err (mismatch m v)
  long_of v (some z) = ok (E.new_long z)

  unfoldable pub elements : Items → Result (List E.Expr) AdapterError
  unfolding describe_json_kind
  elements no_items = ok []
  elements (item (Json.string s) items) = elements items >>= λ es. ok (E.new_string s ∷ es)
  elements (item v items) = err (element_mismatch m v)

  abbrev pub expression_of : PrincipalClaimType → Json → Result E.Expr AdapterError
  expression_of PrincipalClaimType.string_type (Json.string s) = ok (E.new_string s)
  expression_of PrincipalClaimType.long_type (Json.number i text) = long_of (Json.number i text) i
  expression_of PrincipalClaimType.bool_type (Json.boolean b) = ok (E.new_bool b)
  expression_of PrincipalClaimType.set_of_string (Json.array items) =
      elements items >>= λ es. ok (E.new_set es)
  expression_of declared v = err (mismatch m v)

  unfoldable pub build_expression : Json → Result E.Expr AdapterError
  unfolding elements describe_json_kind
  build_expression v = expression_of m.claim_type v

abbrev pub or_configured : Option Json → Option Json → Option Json
or_configured none default = default
or_configured (some v) default = some v

module _ (E : Expressions) (claims : Custom) where
  abbrev pub Attributes : Type 0
  Attributes = List (String × E.Expr)

  abbrev pub absent_claim : PrincipalClaimMapping → Bool → Result (Option E.Expr) AdapterError
  absent_claim m true = err (missing_claim m)
  absent_claim m false = ok none

  abbrev pub attribute_of :
      PrincipalClaimMapping → Option Json → Result (Option E.Expr) AdapterError
  attribute_of m none = absent_claim m m.required
  attribute_of m (some v) = build_expression E m v >>= λ e. ok (some e)

  abbrev pub keep_attribute : String → Option E.Expr → Attributes → Attributes
  keep_attribute name none attrs = attrs
  keep_attribute name (some e) attrs = insert_key name e attrs

  unfoldable pub extract_loop :
      List PrincipalClaimMapping → Attributes → Result Attributes AdapterError
  unfolding build_expression get_key insert_key
  extract_loop [] attrs = ok attrs
  extract_loop (m ∷ ms) attrs =
      attribute_of m (or_configured (get_key m.claim_name claims) m.default) >>= λ e.
      extract_loop ms (keep_attribute m.attribute_name e attrs)

  unfoldable pub extract_into : PrincipalClaimMappings → Attributes → Result Attributes AdapterError
  unfolding extract_loop
  extract_into ms attrs = extract_loop ms.by_name attrs
