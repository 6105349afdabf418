-- ===== src/Migration/Diff/Lookup.antt =====
-- crates/schema-forge-core/src/migration.rs, `DiffEngine`: the rename maps, comparisons and look-ups.
use schemaforge.Prelude.{
  Bool, true, Option, none, some, List, [], ◌∷◌, ◌==◌, any, is_yes, is_yes_iff, ◌≡◌, ◌↔◌,
  if◌then◌else◌,
}
use schemaforge.Core.Names.{FieldName}
use schemaforge.Core.Constraints.{DefaultValue, FieldModifier, default}
use schemaforge.Core.FieldType.{
  FieldType, text, integer, float, FieldType-discrete, DefaultValue-discrete,
}
use schemaforge.Core.Schema.{FieldDefinition, SchemaDefinition, field}
use schemaforge.Migration.Step.{
  ValueTransform, integer_to_float, float_to_integer, to_string, set_null,
}

abbrev pub Renames : Type 0
Renames = List (FieldName × FieldName)

-- `rename_old_to_new.contains_key(name)`
unfoldable pub is_rename_source : FieldName → Renames → Bool
is_rename_source name renames = any (λ r. r.0 == name) renames

-- `rename_new_to_old.contains_key(name)`
unfoldable pub is_rename_target : FieldName → Renames → Bool
is_rename_target name renames = any (λ r. r.1 == name) renames

-- `rename_new_to_old.get(name)`: of two pairs with one new name the later was collected last.
unfoldable pub rename_origin : FieldName → Renames → Option FieldName
rename_origin name [] = none
rename_origin name ((old_name, new_name) ∷ renames) = elim (rename_origin name renames) [
  | some origin ↦ some origin
  | none ↦ if new_name == name then some old_name else none
]

-- The old version of a field: by its old name if a hint renames it, or by its own.
unfoldable pub old_version : SchemaDefinition → Renames → FieldName → Option FieldDefinition
unfolding rename_origin field
old_version old renames name = elim (rename_origin name renames) [
  | some old_name ↦ field old old_name
  | none ↦ field old name
]

-- `==` of two field types, and of two default values.
unfoldable pub same_type : FieldType → FieldType → Bool
unfolding FieldType-discrete
same_type a b = is_yes (FieldType-discrete a b)

unfoldable pub same_default : DefaultValue → DefaultValue → Bool
unfolding DefaultValue-discrete
same_default a b = is_yes (DefaultValue-discrete a b)

unfoldable pub extract_default : List FieldModifier → Option DefaultValue
extract_default [] = none
extract_default (default value ∷ ms) = some value
extract_default (_ ∷ ms) = extract_default ms

unfoldable pub infer_transform : FieldType → FieldType → ValueTransform
infer_transform (integer _) (float _) = integer_to_float
infer_transform (float _) (integer _) = float_to_integer
infer_transform _ (text _) = to_string
infer_transform _ _ = set_null

pub same_type_iff : (a b : FieldType) → (same_type a b ≡ true) ↔ (a ≡ b)
unfolding same_type
same_type_iff a b = is_yes_iff (FieldType-discrete a b)

pub same_default_iff : (a b : DefaultValue) → (same_default a b ≡ true) ↔ (a ≡ b)
unfolding same_default
same_default_iff a b = is_yes_iff (DefaultValue-discrete a b)
