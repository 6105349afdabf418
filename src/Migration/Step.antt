-- ===== src/Migration/Step.antt =====
-- crates/schema-forge-core/src/migration.rs: the steps of a plan and how safe each is.
use schemaforge.Prelude.{String, List}
use schemaforge.Core.Names.{FieldName, SchemaName}
use schemaforge.Core.Constraints.{Cardinality, DefaultValue}
use schemaforge.Core.FieldType.{FieldType}
use schemaforge.Core.Schema.{FieldDefinition}
use schemaforge.Core.Tokens.Lifecycle.{HookEvent}
use schemaforge.Core.Value.{Externals, DynamicValue}

pub data MigrationSafety : Type 0 where
  safe requires_confirmation destructive : MigrationSafety

pub data ValueTransform : Type 0 where
  identity integer_to_float float_to_integer to_string : ValueTransform
  set_default_value : DefaultValue → ValueTransform
  set_null : ValueTransform

pub data MigrationStep (X : Externals) : Type 0 where
  create_schema : SchemaName → List FieldDefinition → MigrationStep X
  drop_schema : SchemaName → MigrationStep X
  add_field : FieldDefinition → MigrationStep X
  remove_field : FieldName → MigrationStep X
  rename_field : FieldName → FieldName → MigrationStep X
  change_type : FieldName → FieldType → FieldType → ValueTransform → MigrationStep X
  add_index : FieldName → MigrationStep X
  remove_index : FieldName → MigrationStep X
  add_relation : FieldName → SchemaName → Cardinality → MigrationStep X
  remove_relation : FieldName → MigrationStep X
  backfill_required : FieldName → DynamicValue X → MigrationStep X
  add_required : FieldName → MigrationStep X
  remove_required : FieldName → MigrationStep X
  set_default : FieldName → DefaultValue → MigrationStep X
  remove_default : FieldName → MigrationStep X
  add_hook : HookEvent → String → MigrationStep X
  remove_hook : HookEvent → MigrationStep X
  change_hook_intent : HookEvent → String → String → MigrationStep X

unfoldable pub safety : {X : Externals} → MigrationStep X → MigrationSafety
safety (create_schema name fields) = safe
safety (add_field f) = safe
safety (add_index f) = safe
safety (add_relation n t c) = safe
safety (remove_index f) = safe
safety (remove_required f) = safe
safety (set_default f v) = safe
safety (remove_default f) = safe
safety (add_hook e i) = safe
safety (remove_hook e) = safe
safety (change_hook_intent e o n) = safe
safety (rename_field o n) = requires_confirmation
safety (change_type n o t v) = requires_confirmation
safety (backfill_required f v) = requires_confirmation
safety (add_required f) = requires_confirmation
safety (drop_schema n) = destructive
safety (remove_field n) = destructive
safety (remove_relation n) = destructive
