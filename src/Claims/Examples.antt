-- ===== src/Claims/Examples.antt =====
-- Tests of the Claims modules, and the properties at concrete inputs.
use schemaforge.Prelude.{String, true, false, none, some, [], ◌∷◌, ok, ◌≡◌, ◌↔◌, refl}
use schemaforge.Core.Constraints.{Cardinality}
use schemaforge.Core.FieldType.{FieldType}
use schemaforge.Core.Value.{Externals, DynamicValue}
use schemaforge.Claims.Json.{Json, PrincipalClaimType, json_matches_type, no_items, item}
use schemaforge.Claims.Projection.{UserFieldProjection, resolve_projection, project_value}
use schemaforge.Claims.Config.{
  PrincipalClaimMapping, is_cedar_identifier, cedar_schema_fragment, cedar_type_fragment,
}
use schemaforge.Claims.Extract.{Expressions, build_expression}
use schemaforge.Claims.Built.{build_expression_iff}
use schemaforge.Claims.Accepted.{build_expression-project_value}

abbrev plain : Externals
plain = record { F64 = Unit {0}; DateTime = Unit {0}; Json = Unit {0} }

abbrev shown : Expressions
shown = record {
  Expr = String;
  new_string = λ s. s;
  new_long = λ z. "long";
  new_bool = λ b. "bool";
  new_set = λ es. "set";
}

abbrev teams : PrincipalClaimMapping
teams = record {
  attribute_name = "teams";
  claim_name = "https://example.org/teams";
  claim_type = PrincipalClaimType.set_of_string;
  required = true;
  default = none;
  source = none;
}

abbrev team_relation : FieldType
team_relation = FieldType.relation "Team" Cardinality.many

abbrev two_teams : DynamicValue plain
two_teams = DynamicValue.ref_array ("team_1" ∷ "team_2" ∷ [])

identifiers :
    (is_cedar_identifier "_org2" ≡ true)
    × (is_cedar_identifier "2org" ≡ false)
    × (is_cedar_identifier "" ≡ false)
unfolding is_cedar_identifier
identifiers = (refl, refl, refl)

teams_projected :
    resolve_projection "teams" "team_ids" team_relation PrincipalClaimType.set_of_string
    ≡ ok UserFieldProjection.relation_many_to_set_of_string
unfolding resolve_projection
teams_projected = refl

build_expression-project_value_example :
    (j : Json) × (e : String) × (project_value UserFieldProjection.relation_many_to_set_of_string
        two_teams
      ≡ some j)
    × (build_expression shown teams j ≡ ok e)
build_expression-project_value_example =
    build_expression-project_value shown teams "team_ids" team_relation
      UserFieldProjection.relation_many_to_set_of_string two_teams teams_projected tt

build_expression_iff_example :
    ((e : String) × (build_expression shown teams (Json.array (item (Json.string "a") no_items))
        ≡ ok e))
    ↔ (json_matches_type
          (Json.array (item (Json.string "a") no_items))
          PrincipalClaimType.set_of_string
        ≡ true)
build_expression_iff_example =
    build_expression_iff shown teams (Json.array (item (Json.string "a") no_items))

teams_fragment :
    ◌≡◌ {A = String}
      (cedar_schema_fragment (record { by_name = teams ∷ []; raw_sources = [] }))
      "    \"teams\"?: Set<String>,\n"
unfolding cedar_schema_fragment cedar_type_fragment
teams_fragment = refl
