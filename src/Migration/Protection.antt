-- ===== src/Migration/Protection.antt =====
-- The guard of system schemas of crates/schema-forge-core/src/migration.rs.
use schemaforge.Prelude.{String, false, Option-cases, ◌≡◌, refl, ◌∙◌, arith, any, any-none, ok}
use schemaforge.Prelude.{Bool, true, List, [], ◌∷◌, ◌++◌, err}
use schemaforge.Core.Names.{FieldName, SchemaName}
use schemaforge.Core.Annotation.{Annotation, system}
use schemaforge.Migration.Step.{MigrationStep, drop_schema}
use schemaforge.Core.Schema.{FieldDefinition, SchemaDefinition, field, is_system, matches_system}
use schemaforge.Core.Value.{Externals}
use schemaforge.Migration.Diff.Lookup.{Renames}
use schemaforge.Migration.Plan.{MigrationPlan, system_schema_protected}
use schemaforge.Migration.Diff.Fields.{
  emit_remove_field, emit_add_field, emit_change_type_with_name, retype_renamed, rename_steps,
  removed_steps, added_steps,
}
use schemaforge.Migration.Diff.Engine.{
  diff_with_renames, matches_drop_schema, validate_system_schema_protection,
}
use schemaforge.Migration.Scan.{IsQuiet, any-diff_with_renames}

drop_schema-IsQuiet : (X : Externals) → IsQuiet (matches_drop_schema {X = X})
drop_schema-IsQuiet X = record {
  type = λ n a b v. refl;
  index = λ n. refl;
  unindex = λ n. refl;
  require = λ n. refl;
  relax = λ n. refl;
  default = λ n v. refl;
  undefault = λ n. refl;
  hook = λ e i. refl;
  unhook = λ e. refl;
  intent = λ e o n. refl;
}

any-middle {ℓ} :
    {A : Type ℓ} (p : A → Bool) (xs : List A) (y : A) (ys : List A)
    → p y ≡ true
    → any p (xs ++ y ∷ ys) ≡ true
any-middle p [] y ys h = ground arith
any-middle p (x ∷ xs) y ys h = ground (arith, any-middle p xs y ys h)

module _ (X : Externals) (id : String) (old new : SchemaDefinition) (renames : Renames) where
  drops-rename_steps :
      (r : FieldName × FieldName)
      → any matches_drop_schema (rename_steps {X = X} old new renames r) ≡ false
  unfolding rename_steps retype_renamed emit_change_type_with_name
  drops-rename_steps (o, n) = ground (arith, Option-cases (field old o), Option-cases (field new n))

  drops-removed_steps :
      (f : FieldDefinition)
      → any matches_drop_schema (removed_steps {X = X} old new renames f) ≡ false
  unfolding removed_steps emit_remove_field
  drops-removed_steps f = ground arith

  drops-added_steps :
      (f : FieldDefinition)
      → any matches_drop_schema (added_steps {X = X} old new renames f) ≡ false
  unfolding added_steps emit_add_field
  drops-added_steps f = ground arith

  drops-diff : any matches_drop_schema (diff_with_renames {X = X} id old new renames).steps ≡ false
  drops-diff =
      any-diff_with_renames matches_drop_schema (drop_schema-IsQuiet X) id old new renames
      ∙ rw (
        any-none _ drops-rename_steps renames,
        any-none _ drops-added_steps new.fields,
        any-none _ drops-removed_steps old.fields,
      )

  -- For a schema with the system annotation the guard refuses, with the schema's name, each plan that has
  -- a step that drops a schema. It lets through every plan that the diff makes, with or without hints,
  -- since a diff never drops a schema: also one that destroys fields of a system schema.
  pub validate_system_schema_protection-diff :
      ((before after : List Annotation)
        → old.annotations ≡ before ++ system ∷ after
        → (plan : MigrationPlan X) (xs ys : List (MigrationStep X)) (name : SchemaName)
        → plan.steps ≡ xs ++ drop_schema name ∷ ys
        → validate_system_schema_protection old plan ≡ err (system_schema_protected old.name))
      × (validate_system_schema_protection old (diff_with_renames {X = X} id old new renames)
          ≡ ok tt)
  unfolding validate_system_schema_protection is_system
  validate_system_schema_protection-diff = (
    λ before after marked plan xs ys name drops.
        rw
          (
            marked,
            drops,
            any-middle matches_system before system after refl,
            any-middle matches_drop_schema xs (drop_schema name) ys refl,
          )
          refl,
    rw drops-diff (ground arith),
  )
