-- ===== src/Migration/Diff/Fields.antt =====
-- crates/schema-forge-core/src/migration.rs, `DiffEngine`: `diff_fields_with_renames`. What a method
-- pushes onto `steps` is the list that it returns here, and the caller appends the lists in the order
-- of its calls.
use schemaforge.Prelude.{Option, none, some, List, [], ◌∷◌, ◌++◌, is_some, for_each, if◌then◌else◌}
use schemaforge.Core.Names.{FieldName}
use schemaforge.Core.FieldType.{relation}
use schemaforge.Core.Schema.{FieldDefinition, SchemaDefinition, is_derived, field}
use schemaforge.Core.Value.{Externals}
use schemaforge.Migration.Step.{
  MigrationStep, add_field, remove_field, rename_field, change_type, add_relation, remove_relation,
}
use schemaforge.Migration.Diff.Lookup.{
  Renames, is_rename_source, is_rename_target, same_type, infer_transform,
}

module _ {X : Externals} where
  unfoldable pub emit_remove_field : FieldDefinition → List (MigrationStep X)
  emit_remove_field f = if is_derived f then [] else elim f.field_type [
    | relation target cardinality ↦ remove_relation f.name ∷ []
    | _ ↦ remove_field f.name ∷ []
  ]

  unfoldable pub emit_add_field : FieldDefinition → List (MigrationStep X)
  emit_add_field f = if is_derived f then [] else elim f.field_type [
    | relation target cardinality ↦ add_relation f.name target cardinality ∷ []
    | _ ↦ add_field f ∷ []
  ]

  unfoldable pub emit_change_type_with_name :
      FieldName → FieldDefinition → FieldDefinition → List (MigrationStep X)
  unfolding infer_transform
  emit_change_type_with_name name old_field new_field =
      change_type name old_field.field_type new_field.field_type
        (infer_transform old_field.field_type new_field.field_type)
      ∷ []

  unfoldable pub emit_change_type : FieldDefinition → FieldDefinition → List (MigrationStep X)
  unfolding emit_change_type_with_name
  emit_change_type old_field new_field =
      emit_change_type_with_name new_field.name old_field new_field

  -- The body of the loop over the rename hints, on what `old.field` and `new.field` return.
  unfoldable pub retype_renamed :
      FieldName → FieldDefinition → Option FieldDefinition → List (MigrationStep X)
  unfolding same_type emit_change_type_with_name
  retype_renamed new_name old_field none = []
  retype_renamed new_name old_field (some new_field) =
      if same_type old_field.field_type new_field.field_type
      then []
      else emit_change_type_with_name new_name old_field new_field

  unfoldable pub rename_found :
      FieldName
      → FieldName
      → Option FieldDefinition
      → Option FieldDefinition
      → List (MigrationStep X)
  unfolding retype_renamed
  rename_found old_name new_name none new_field = []
  rename_found old_name new_name (some old_field) new_field =
      rename_field old_name new_name ∷ retype_renamed new_name old_field new_field

  -- The body of the loop over the fields in both versions.
  unfoldable pub retype_kept : FieldDefinition → Option FieldDefinition → List (MigrationStep X)
  unfolding same_type emit_change_type
  retype_kept new_field none = []
  retype_kept new_field (some old_field) =
      if same_type old_field.field_type new_field.field_type
      then []
      else emit_change_type old_field new_field

  module _ (old new : SchemaDefinition) (renames : Renames) where
    unfoldable pub rename_steps : FieldName × FieldName → List (MigrationStep X)
    unfolding rename_found field
    rename_steps (old_name, new_name) =
        rename_found old_name new_name (field old old_name) (field new new_name)

    unfoldable pub removed_steps : FieldDefinition → List (MigrationStep X)
    unfolding is_rename_source field emit_remove_field
    removed_steps f =
        if is_rename_source f.name renames
        then []
        else if is_some (field new f.name)
        then []
        else emit_remove_field f

    unfoldable pub added_steps : FieldDefinition → List (MigrationStep X)
    unfolding is_rename_target field emit_add_field
    added_steps f =
        if is_rename_target f.name renames
        then []
        else if is_some (field old f.name)
        then []
        else emit_add_field f

    unfoldable pub changed_steps : FieldDefinition → List (MigrationStep X)
    unfolding is_rename_target field retype_kept
    changed_steps f =
        if is_rename_target f.name renames then [] else retype_kept f (field old f.name)

    unfoldable pub diff_fields_with_renames : List (MigrationStep X)
    unfolding rename_steps removed_steps added_steps changed_steps
    diff_fields_with_renames =
        for_each rename_steps renames
        ++ (for_each removed_steps old.fields
            ++ (for_each added_steps new.fields ++ for_each changed_steps new.fields))
