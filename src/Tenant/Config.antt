-- ===== src/Tenant/Config.antt =====
-- crates/schema-forge-backend/src/tenant.rs: the records and the errors.
use schemaforge.Prelude.{String, Bool, Option, List, is_some}
use schemaforge.Core.Names.{FieldName, SchemaName}

pub record TenantLevel : Type 0 where
  pub schema : SchemaName
  pub parent : Option SchemaName
  pub parent_field : Option FieldName

pub record TenantConfig : Type 0 where
  pub root_schema : Option SchemaName
  pub hierarchy : List TenantLevel

pub data TenantConfigError : Type 0 where
  multiple_roots : String → String → TenantConfigError
  invalid_parent : String → String → TenantConfigError
  cycle_detected : String → TenantConfigError

pub record TenantRef : Type 0 where
  pub schema : String
  pub entity_id : String

abbrev pub is_enabled : TenantConfig → Bool
is_enabled c = is_some c.root_schema
