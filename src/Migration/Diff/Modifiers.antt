-- ===== src/Migration/Diff/Modifiers.antt =====
-- crates/schema-forge-core/src/migration.rs, `DiffEngine`: `diff_modifiers_with_renames`.
use schemaforge.Prelude.{
  Bool, not, ◌&&◌, Option, none, some, List, [], ◌∷◌, ◌++◌, for_each, if◌then◌else◌,
}
use schemaforge.Core.Names.{FieldName}
use schemaforge.Core.Constraints.{DefaultValue}
use schemaforge.Core.Schema.{FieldDefinition, SchemaDefinition, is_derived, is_required, is_indexed}
use schemaforge.Core.Value.{Externals}
use schemaforge.Migration.Step.{
  MigrationStep, add_index, remove_index, add_required, remove_required, set_default,
  remove_default,
}
use schemaforge.Migration.Diff.Lookup.{
  Renames, old_version, same_type, same_default, extract_default,
}

module _ {X : Externals} where
  unfoldable pub required_steps : FieldName → Bool → Bool → List (MigrationStep X)
  required_steps name old_required new_required =
      if not old_required && new_required
      then add_required name ∷ []
      else if old_required && not new_required
      then remove_required name ∷ []
      else []

  unfoldable pub index_steps : FieldName → Bool → Bool → List (MigrationStep X)
  index_steps name old_indexed new_indexed =
      if not old_indexed && new_indexed
      then add_index name ∷ []
      else if old_indexed && not new_indexed
      then remove_index name ∷ []
      else []

  unfoldable pub default_steps :
      FieldName → Option DefaultValue → Option DefaultValue → List (MigrationStep X)
  unfolding same_default
  default_steps name none none = []
  default_steps name none (some value) = set_default name value ∷ []
  default_steps name (some _) none = remove_default name ∷ []
  default_steps name (some old_value) (some new_value) =
      if same_default old_value new_value then [] else set_default name new_value ∷ []

  unfoldable pub diff_field_modifiers : FieldDefinition → FieldDefinition → List (MigrationStep X)
  unfolding required_steps index_steps default_steps is_required is_indexed extract_default
  diff_field_modifiers old_field new_field =
      required_steps new_field.name (is_required old_field) (is_required new_field)
      ++ (index_steps new_field.name (is_indexed old_field) (is_indexed new_field)
          ++ default_steps new_field.name (extract_default old_field.modifiers)
              (extract_default new_field.modifiers))

  unfoldable pub modifiers_found : FieldDefinition → Option FieldDefinition → List (MigrationStep X)
  unfolding same_type diff_field_modifiers
  modifiers_found new_field none = []
  modifiers_found new_field (some old_field) =
      if same_type old_field.field_type new_field.field_type
      then diff_field_modifiers old_field new_field
      else []

  module _ (old new : SchemaDefinition) (renames : Renames) where
    unfoldable pub modifier_steps : FieldDefinition → List (MigrationStep X)
    unfolding old_version modifiers_found
    modifier_steps f =
        if is_derived f then [] else modifiers_found f (old_version old renames f.name)

    unfoldable pub diff_modifiers_with_renames : List (MigrationStep X)
    unfolding modifier_steps
    diff_modifiers_with_renames = for_each modifier_steps new.fields
