-- ===== src/Migration/Local.antt =====
-- What each loop of `DiffEngine` of crates/schema-forge-core/src/migration.rs does to a table, without
-- rename hints.
use schemaforge.Prelude.{
  Bool, true, false, not, ◌&&◌, Option, none, some, [], arith, is_some, if◌then◌else◌, Option-cases,
}
use schemaforge.Core.Names.{FieldName}
use schemaforge.Core.Constraints.{DefaultValue}
use schemaforge.Core.FieldType.{FieldType}
use schemaforge.Core.Schema.{
  FieldDefinition, SchemaDefinition, is_derived, is_required, is_indexed, field,
}
use schemaforge.Core.Value.{Externals}
use schemaforge.Migration.Diff.Lookup.{same_type, same_default, extract_default}
use schemaforge.Migration.Diff.Fields.{
  emit_remove_field, emit_add_field, emit_change_type, retype_kept, removed_steps, added_steps,
  changed_steps,
}
use schemaforge.Migration.Diff.Modifiers.{
  modifier_steps, modifiers_found, required_steps, index_steps, default_steps, diff_field_modifiers,
}
use schemaforge.Migration.Effect.{
  Column, Cell, altered, placed, dropped, column, bare_relation, apply_all,
}
use schemaforge.Migration.Loops.{IsLocal, IsLocal-append}

-- The column that an added field gets: a relation is added without its modifiers.
abbrev pub added_column : FieldDefinition → Column
added_column f = elim f.field_type [
  | FieldType.relation target cardinality ↦ bare_relation (FieldType.relation target cardinality)
  | _ ↦ column f
]

abbrev pub on_removed : SchemaDefinition → FieldDefinition → Cell → Cell
on_removed new f c = if is_some (field new f.name) then c else if is_derived f then c else dropped c

abbrev pub on_added : SchemaDefinition → FieldDefinition → Cell → Cell
on_added old f c =
    if is_some (field old f.name) then c else if is_derived f then c else placed (added_column f) c

abbrev pub retyped : FieldType → Cell → Cell
retyped type c = altered (λ c. record c { type = type }) c

abbrev pub on_kept : FieldDefinition → Option FieldDefinition → Cell → Cell
on_kept g none c = c
on_kept g (some f) c = if same_type f.field_type g.field_type then c else retyped g.field_type c

module _ (X : Externals) (old new : SchemaDefinition) where
  pub removed-IsLocal :
      (f : FieldDefinition) → IsLocal f.name (removed_steps {X = X} old new [] f) (on_removed new f)
  unfolding removed_steps emit_remove_field apply_all
  removed-IsLocal f = record { at = λ t m. ground arith }

  pub added-IsLocal :
      (f : FieldDefinition) → IsLocal f.name (added_steps {X = X} old new [] f) (on_added old f)
  unfolding added_steps emit_add_field apply_all
  added-IsLocal f = record { at = λ t m. ground arith }

  pub changed-IsLocal :
      (g : FieldDefinition)
      → IsLocal g.name (changed_steps {X = X} old new [] g) (on_kept g (field old g.name))
  unfolding changed_steps retype_kept emit_change_type apply_all
  changed-IsLocal g = record { at = λ t m. ground arith }

abbrev pub on_required : Bool → Bool → Cell → Cell
on_required before after c =
    if not before && after
    then altered (λ c. record c { required = true }) c
    else if before && not after
    then altered (λ c. record c { required = false }) c
    else c

abbrev pub on_indexed : Bool → Bool → Cell → Cell
on_indexed before after c =
    if not before && after
    then altered (λ c. record c { indexed = true }) c
    else if before && not after
    then altered (λ c. record c { indexed = false }) c
    else c

abbrev pub on_default : Option DefaultValue → Option DefaultValue → Cell → Cell
on_default none none c = c
on_default none (some v) c = altered (λ c. record c { default = some v }) c
on_default (some u) none c = altered (λ c. record c { default = none }) c
on_default (some u) (some v) c =
    if same_default u v then c else altered (λ c. record c { default = some v }) c

abbrev pub on_modifiers : FieldDefinition → FieldDefinition → Cell → Cell
on_modifiers f g c =
    on_default (extract_default f.modifiers) (extract_default g.modifiers)
      (on_indexed (is_indexed f) (is_indexed g) (on_required (is_required f) (is_required g) c))

abbrev pub on_modified : FieldDefinition → Option FieldDefinition → Cell → Cell
on_modified g none c = c
on_modified g (some f) c =
    if is_derived g
    then c
    else if same_type f.field_type g.field_type
    then on_modifiers f g c
    else c

module _ (X : Externals) where
  required-IsLocal :
      (name : FieldName) (before after : Bool)
      → IsLocal name (required_steps {X = X} name before after) (on_required before after)
  unfolding required_steps apply_all
  required-IsLocal name before after = record { at = λ t m. ground arith }

  index-IsLocal :
      (name : FieldName) (before after : Bool)
      → IsLocal name (index_steps {X = X} name before after) (on_indexed before after)
  unfolding index_steps apply_all
  index-IsLocal name before after = record { at = λ t m. ground arith }

  default-IsLocal :
      (name : FieldName) (before after : Option DefaultValue)
      → IsLocal name (default_steps {X = X} name before after) (on_default before after)
  unfolding default_steps apply_all
  default-IsLocal name before after = record { at = λ t m. ground arith }

  modifiers-IsLocal :
      (f g : FieldDefinition) → IsLocal g.name (diff_field_modifiers {X = X} f g) (on_modifiers f g)
  unfolding diff_field_modifiers
  modifiers-IsLocal f g = IsLocal-append (required-IsLocal g.name (is_required f) (is_required g)) (
      IsLocal-append (index-IsLocal g.name (is_indexed f) (is_indexed g))
        (default-IsLocal g.name (extract_default f.modifiers) (extract_default g.modifiers)))

  pub modified-IsLocal :
      (old new : SchemaDefinition) (g : FieldDefinition)
      → IsLocal g.name (modifier_steps {X = X} old new [] g) (on_modified g (field old g.name))
  unfolding modifier_steps modifiers_found apply_all
  modified-IsLocal old new g = record {
    at = λ t m. ground (arith, Option-cases (field old g.name));
  }
