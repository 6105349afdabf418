-- ===== src/Migration/Effect.antt =====
-- What the steps of crates/schema-forge-core/src/migration.rs ask of a table: a specification, apart from
-- the code. A step changes the part of a column that it names and no other, and it presupposes the
-- column that it changes and the absence of the one that it adds; where that fails the cell is broken.
-- The ALTER statements of the PostgreSQL backend keep the other parts and fail on an absent column;
-- SurrealDB's DEFINE FIELD OVERWRITE does neither, so nothing here is about that backend.
use schemaforge.Prelude.{
  Bool, true, false, Option, none, some, List, [], ◌∷◌, ◌++◌, ◌≡◌, refl, ◌==◌, if◌then◌else◌,
}
use schemaforge.Core.Names.{FieldName}
use schemaforge.Core.Constraints.{DefaultValue}
use schemaforge.Core.FieldType.{FieldType, relation}
use schemaforge.Core.Schema.{
  FieldDefinition, SchemaDefinition, is_derived, is_required, is_indexed, find_field, field,
}
use schemaforge.Core.Value.{Externals}
use schemaforge.Migration.Step.{
  MigrationStep, create_schema, drop_schema, add_field, remove_field, rename_field, change_type,
  add_index, remove_index, add_relation, remove_relation, backfill_required, add_required,
  remove_required, set_default, remove_default, add_hook, remove_hook, change_hook_intent,
}
use schemaforge.Migration.Diff.Lookup.{extract_default}

pub record Column : Type 0 where
  pub type : FieldType
  pub required : Bool
  pub indexed : Bool
  pub default : Option DefaultValue

-- What a table has at a name: nothing, a column, or the mark of a step that could not be carried out.
pub data Cell : Type 0 where
  absent : Cell
  present : Column → Cell
  broken : Cell

abbrev pub Table : Type 0
Table = FieldName → Cell

-- The column that a field asks for.
unfoldable pub column : FieldDefinition → Column
unfolding is_required is_indexed extract_default
column f = record {
  type = f.field_type;
  required = is_required f;
  indexed = is_indexed f;
  default = extract_default f.modifiers;
}

-- A derived field has no column.
abbrev pub stored : Option FieldDefinition → Cell
stored none = absent
stored (some f) = if is_derived f then absent else present (column f)

-- The columns of a schema.
abbrev pub columns : SchemaDefinition → Table
columns s name = stored (field s name)

abbrev pub altered : (Column → Column) → Cell → Cell
altered g absent = broken
altered g (present c) = present (g c)
altered g broken = broken

abbrev pub placed : Column → Cell → Cell
placed c absent = present c
placed c (present d) = broken
placed c broken = broken

abbrev pub dropped : Cell → Cell
dropped absent = broken
dropped (present c) = absent
dropped broken = broken

-- The cell under the new name, from those under both.
abbrev moved : Cell → Cell → Cell
moved (present c) absent = present c
moved _ _ = broken

abbrev created : Option FieldDefinition → Cell → Cell
created none c = c
created (some f) c = placed (column f) c

-- A change at one name.
abbrev pub revise : FieldName → (Cell → Cell) → Table → Table
revise name g t m = if name == m then g (t m) else t m

abbrev pub bare_relation : FieldType → Column
bare_relation type = record { type = type; required = false; indexed = false; default = none }

unfoldable pub apply : {X : Externals} → MigrationStep X → Table → Table
unfolding column
apply (create_schema name fields) t = λ m. created (find_field m fields) (t m)
apply (drop_schema name) t = λ m. absent
apply (add_field f) t = revise f.name (placed (column f)) t
apply (remove_field name) t = revise name dropped t
apply (rename_field old_name new_name) t = λ m.
    if new_name == m then moved (t old_name) (t m) else if old_name == m then dropped (t m) else t m
apply (change_type name old_type new_type transform) t =
    revise name (altered (λ c. record c { type = new_type })) t
apply (add_index name) t = revise name (altered (λ c. record c { indexed = true })) t
apply (remove_index name) t = revise name (altered (λ c. record c { indexed = false })) t
apply (add_relation name target cardinality) t =
    revise name (placed (bare_relation (relation target cardinality))) t
apply (remove_relation name) t = revise name dropped t
apply (backfill_required name value) t = revise name (altered (λ c. c)) t
apply (add_required name) t = revise name (altered (λ c. record c { required = true })) t
apply (remove_required name) t = revise name (altered (λ c. record c { required = false })) t
apply (set_default name value) t = revise name (altered (λ c. record c { default = some value })) t
apply (remove_default name) t = revise name (altered (λ c. record c { default = none })) t
apply (add_hook event intent) t = t
apply (remove_hook event) t = t
apply (change_hook_intent event old_intent new_intent) t = t

unfoldable pub apply_all : {X : Externals} → List (MigrationStep X) → Table → Table
unfolding apply
apply_all [] t = t
apply_all (step ∷ steps) t = apply_all steps (apply step t)

pub apply_all-append :
    {X : Externals} (xs ys : List (MigrationStep X)) (t : Table)
    → apply_all (xs ++ ys) t ≡ apply_all ys (apply_all xs t)
unfolding apply_all
apply_all-append [] ys t = refl
apply_all-append (x ∷ xs) ys t = apply_all-append xs ys (apply x t)
