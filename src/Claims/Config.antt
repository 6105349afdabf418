-- ===== src/Claims/Config.antt =====
-- The configuration of claims in crates/schema-forge-acton/src/authz/principal_claims.rs. A `BTreeMap` is
-- the list of its entries in key order, so what a loop over one inserts into another stands at its end.
use Prim.Native.Char.{Char, code}
use Prim.Native.String
use schemaforge.Prelude.{
  String, Bool, true, false, ◌&&◌, ◌||◌, Option, none, some, List, [], ◌∷◌, Result, ok, err, ◌>>=◌,
  ◌==◌, eqb, any, if◌then◌else◌, is_some,
}
use schemaforge.Core.Names.{is_ascii_alphanumeric, all_chars}
use schemaforge.Core.Schema.{FieldDefinition, SchemaDefinition, field}
use schemaforge.Dsl.Literals.{is_ascii_alphabetic}
use schemaforge.Access.Hidden.{is_hidden}
use schemaforge.Claims.Json.{Json, PrincipalClaimType, json_matches_type, describe_json_kind}
use schemaforge.Claims.Projection.{
  UserFieldProjection, PrincipalClaimsError, reserved_name, invalid_name, empty_claim_key,
  default_type_mismatch, unknown_user_field, hidden_user_field, resolve_projection,
}

abbrev pub reserved_attribute_names : List String
reserved_attribute_names = "id" ∷ "role_rank" ∷ "roles" ∷ []

abbrev pub cedar_char : Char → Bool
cedar_char c = eqb (code c) b'_' || is_ascii_alphanumeric c

abbrev pub cedar_start : Char → Bool
cedar_start c = eqb (code c) b'_' || is_ascii_alphabetic c

unfoldable pub is_cedar_identifier : String → Bool
is_cedar_identifier String.[] = false
is_cedar_identifier (String.◌∷◌ c s) = cedar_start c && all_chars cedar_char s

-- A source is the name of a field of the user.
pub record PrincipalClaimConfigEntry : Type 0 where
  pub claim : Option String
  pub claim_type : PrincipalClaimType
  pub required : Bool
  pub default : Option Json
  pub source : Option String

abbrev pub PrincipalClaimsConfig : Type 0
PrincipalClaimsConfig = List (String × PrincipalClaimConfigEntry)

pub record ResolvedClaimSource : Type 0 where
  pub user_field : String
  pub projection : UserFieldProjection

pub record PrincipalClaimMapping : Type 0 where
  pub attribute_name : String
  pub claim_name : String
  pub claim_type : PrincipalClaimType
  pub required : Bool
  pub default : Option Json
  pub source : Option ResolvedClaimSource

pub record PrincipalClaimMappings : Type 0 where
  pub by_name : List PrincipalClaimMapping
  pub raw_sources : List (String × String)

abbrev pub Checked : Type 0 → Type 0
Checked A = Result A PrincipalClaimsError

abbrev pub or_name : Option String → String → String
or_name none name = name
or_name (some claim) name = claim

unfoldable pub check_name : String → Checked (Unit {0})
unfolding is_cedar_identifier
check_name name =
    if any (λ r. r == name) reserved_attribute_names
    then err (reserved_name name)
    else if is_cedar_identifier name
    then ok tt
    else err (invalid_name name)

unfoldable pub check_claim : String → String → Checked (Unit {0})
check_claim name claim = if claim == "" then err (empty_claim_key name) else ok tt

unfoldable pub check_default : String → PrincipalClaimType → Option Json → Checked (Unit {0})
unfolding json_matches_type describe_json_kind
check_default name declared none = ok tt
check_default name declared (some v) =
    if json_matches_type v declared
    then ok tt
    else err (default_type_mismatch name declared (describe_json_kind v))

-- One round of the loop of `from_config`, up to what it inserts.
unfoldable pub mapping_of : String → PrincipalClaimConfigEntry → Checked PrincipalClaimMapping
unfolding check_name check_claim check_default
mapping_of name e = check_name name >>= λ _. check_claim name (or_name e.claim name) >>= λ _.
    check_default name e.claim_type e.default >>= λ _. ok (record {
      attribute_name = name;
      claim_name = or_name e.claim name;
      claim_type = e.claim_type;
      required = e.required;
      default = e.default;
      source = none;
    })

abbrev pub with_source :
    String → Option String → PrincipalClaimMapping → PrincipalClaimMappings → PrincipalClaimMappings
with_source name none m ms = record { by_name = m ∷ ms.by_name; raw_sources = ms.raw_sources }
with_source name (some user_field) m ms = record {
  by_name = m ∷ ms.by_name;
  raw_sources = (name, user_field) ∷ ms.raw_sources;
}

unfoldable pub from_config : PrincipalClaimsConfig → Checked PrincipalClaimMappings
unfolding mapping_of
from_config [] = ok (record { by_name = []; raw_sources = [] })
from_config ((name, e) ∷ config) =
    mapping_of name e >>= λ m. from_config config >>= λ ms. ok (with_source name e.source m ms)

abbrev pub known : String → String → Option FieldDefinition → Checked FieldDefinition
known name user_field none = err (unknown_user_field name user_field)
known name user_field (some f) = ok f

abbrev pub not_hidden : String → String → FieldDefinition → Checked (Unit {0})
not_hidden name user_field f =
    if is_hidden f then err (hidden_user_field name user_field) else ok tt

-- What the loop of `resolve_user_field_sources` puts into the mapping of one raw source.
unfoldable pub resolve_source :
    SchemaDefinition → String → String → PrincipalClaimType → Checked ResolvedClaimSource
unfolding field resolve_projection is_hidden
resolve_source user name user_field declared =
    known name user_field (field user user_field) >>= λ f. not_hidden name user_field f >>= λ _.
    resolve_projection name user_field f.field_type declared >>= λ p.
    ok (record { user_field = user_field; projection = p })

-- `none` where `by_name` lacks the name of a raw source, which panics.
abbrev pub Resolved : Type 0
Resolved = Option (Checked (List PrincipalClaimMapping))

abbrev pub behind_first : PrincipalClaimMapping → Resolved → Resolved
behind_first m none = none
behind_first m (some r) = some (r >>= λ ms. ok (m ∷ ms))

-- `by_name.get_mut(attr_name)`, changed by its resolved source
unfoldable pub resolve_at :
    SchemaDefinition → String → String → List PrincipalClaimMapping → Resolved
unfolding resolve_source
resolve_at user name user_field [] = none
resolve_at user name user_field (m ∷ ms) =
    let rest = resolve_at user name user_field ms in
    if m.attribute_name == name
    then some (
        resolve_source user name user_field m.claim_type >>= λ s. ok (
          record {
            attribute_name = m.attribute_name;
            claim_name = m.claim_name;
            claim_type = m.claim_type;
            required = m.required;
            default = m.default;
            source = some s;
          }
          ∷ ms))
    else behind_first m rest

abbrev pub go_on : Resolved → (List PrincipalClaimMapping → Resolved) → Resolved
go_on none next = none
go_on (some (err e)) next = some (err e)
go_on (some (ok ms)) next = next ms

unfoldable pub resolve_all :
    SchemaDefinition → List (String × String) → List PrincipalClaimMapping → Resolved
unfolding resolve_at
resolve_all user [] ms = some (ok ms)
resolve_all user ((name, user_field) ∷ sources) ms =
    go_on (resolve_at user name user_field ms) (resolve_all user sources)

-- The mappings behind the call; the raw sources stay.
unfoldable pub resolve_user_field_sources : PrincipalClaimMappings → SchemaDefinition → Resolved
unfolding resolve_all
resolve_user_field_sources ms user = resolve_all user ms.raw_sources ms.by_name

abbrev is_nil : List PrincipalClaimMapping → Bool
is_nil [] = true
is_nil (m ∷ ms) = false

unfoldable pub has_user_field_sources : PrincipalClaimMappings → Bool
has_user_field_sources ms = any (λ m. is_some m.source) ms.by_name

unfoldable pub is_empty : PrincipalClaimMappings → Bool
is_empty ms = is_nil ms.by_name

unfoldable pub cedar_type_fragment : PrincipalClaimType → String
cedar_type_fragment PrincipalClaimType.string_type = "String"
cedar_type_fragment PrincipalClaimType.long_type = "Long"
cedar_type_fragment PrincipalClaimType.bool_type = "Bool"
cedar_type_fragment PrincipalClaimType.set_of_string = "Set<String>"

abbrev pub fragment_line : PrincipalClaimMapping → String → String
fragment_line m out = String.◌++◌ "    \"" (
    String.◌++◌ m.attribute_name (
      String.◌++◌ "\"?: " (String.◌++◌ (cedar_type_fragment m.claim_type) (String.◌++◌ ",\n" out))))

abbrev fragment_lines : List PrincipalClaimMapping → String
fragment_lines [] = ""
fragment_lines (m ∷ ms) = fragment_line m (fragment_lines ms)

unfoldable pub cedar_schema_fragment : PrincipalClaimMappings → String
unfolding cedar_type_fragment
cedar_schema_fragment ms = fragment_lines ms.by_name
