-- ===== src/Tenant/Examples.antt =====
-- An organisation with teams, and the theorems of the tenant hierarchy at them.
use schemaforge.Prelude.{String, true, none, some, List, [], ◌∷◌, ◌≡◌, refl, any, All, Result, ok}
use schemaforge.Core.Annotation.{TenantKind, tenant}
use schemaforge.Core.FieldType.{FieldType}
use schemaforge.Core.Schema.{SchemaDefinition, field_new}
use schemaforge.Tenant.Config.{TenantConfig, TenantConfigError}
use schemaforge.Tenant.Build.{
  member, schema_names, check_parents, check_cycles, retain, place_all, arrange, build,
  from_schemas, scan_schemas, find_parent_field,
}
use schemaforge.Tenant.Total.{from_schemas-total}
use schemaforge.Tenant.Order.{Rooted, from_schemas-Rooted}
use schemaforge.Tenant.Coverage.{is_tenant}
use schemaforge.Tenant.Hierarchy.{from_schemas_complete}

abbrev schema_of : String → String → TenantKind → SchemaDefinition
schema_of name field kind = record {
  id = name;
  name = name;
  fields = field_new field FieldType.boolean ∷ [];
  annotations = tenant kind ∷ [];
}

-- The project comes before its team, and the team before its organisation.
abbrev schemas : List SchemaDefinition
schemas =
    schema_of "Project" "team" (TenantKind.child "Team")
    ∷ schema_of "Team" "organization" (TenantKind.child "Organization")
    ∷ schema_of "Organization" "active" TenantKind.root
    ∷ []

abbrev config : TenantConfig
config = record {
  root_schema = some "Organization";
  hierarchy =
      record { schema = "Organization"; parent = none; parent_field = none }
      ∷ record { schema = "Team"; parent = some "Organization"; parent_field = some "organization" }
      ∷ record { schema = "Project"; parent = some "Team"; parent_field = some "team" }
      ∷ [];
}

from_schemas-config : from_schemas schemas ≡ some (ok config)
unfolding from_schemas scan_schemas build check_parents check_cycles arrange place_all retain
from_schemas-config = refl

-- The name of a parent of two words is lowercased, not put in snake case.
find_parent_field_two_words :
    find_parent_field (schema_of "Team" "business_unit" TenantKind.root) "BusinessUnit" ≡ none
unfolding find_parent_field
find_parent_field_two_words = refl

from_schemas-total_example :
    (r : Result TenantConfig TenantConfigError) × (from_schemas schemas ≡ some r)
from_schemas-total_example = from_schemas-total schemas

from_schemas-Rooted_example : Rooted (some "Organization") config.hierarchy
from_schemas-Rooted_example = from_schemas-Rooted schemas config from_schemas-config

from_schemas_complete_example :
    All
      (λ s.
        any is_tenant s.annotations ≡ true → member (schema_names config.hierarchy) s.name ≡ true)
      schemas
from_schemas_complete_example = from_schemas_complete schemas config from_schemas-config
