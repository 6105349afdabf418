-- ===== src/Migration/Diff/Engine.antt =====
-- crates/schema-forge-core/src/migration.rs, `DiffEngine`: the entry points.
use schemaforge.Prelude.{
  String, Bool, true, false, not, [], ◌∷◌, ◌++◌, any, keep, if◌then◌else◌, Result, ok, err,
}
use schemaforge.Core.Schema.{SchemaDefinition, is_derived, is_system}
use schemaforge.Core.Value.{Externals}
use schemaforge.Migration.Step.{MigrationStep, create_schema, drop_schema}
use schemaforge.Migration.Plan.{MigrationPlan, MigrationError, system_schema_protected}
use schemaforge.Migration.Diff.Lookup.{Renames}
use schemaforge.Migration.Diff.Hooks.{diff_hooks}
use schemaforge.Migration.Diff.Fields.{diff_fields_with_renames}
use schemaforge.Migration.Diff.Modifiers.{diff_modifiers_with_renames}

module _ {X : Externals} where
  -- `id` is the fresh id of the plan.
  unfoldable pub diff_with_renames :
      String → SchemaDefinition → SchemaDefinition → Renames → MigrationPlan X
  unfolding diff_fields_with_renames diff_modifiers_with_renames diff_hooks
  diff_with_renames id old new renames = record {
    id = id;
    schema_id = new.id;
    schema_name = new.name;
    steps =
        diff_fields_with_renames old new renames
        ++ (diff_modifiers_with_renames old new renames ++ diff_hooks old new);
  }

  unfoldable pub diff : String → SchemaDefinition → SchemaDefinition → MigrationPlan X
  unfolding diff_with_renames
  diff id old new = diff_with_renames id old new []

  unfoldable pub create_new : String → SchemaDefinition → MigrationPlan X
  create_new id schema = record {
    id = id;
    schema_id = schema.id;
    schema_name = schema.name;
    steps = create_schema schema.name (keep (λ f. not (is_derived f)) schema.fields) ∷ [];
  }

  abbrev pub matches_drop_schema : MigrationStep X → Bool
  matches_drop_schema (drop_schema name) = true
  matches_drop_schema _ = false

  unfoldable pub validate_system_schema_protection :
      SchemaDefinition → MigrationPlan X → Result (Unit {0}) MigrationError
  unfolding is_system
  validate_system_schema_protection old plan =
      if not (is_system old)
      then ok tt
      else if any matches_drop_schema plan.steps
      then err (system_schema_protected old.name)
      else ok tt
