-- ===== src/Migration/Gaps.antt =====
-- Changes that a plan of crates/schema-forge-core/src/migration.rs does not carry over.
use schemaforge.Prelude.{
  String, Bool, true, false, not, none, some, ◌≡◌, refl, ap, ◌∙◌, ◌==◌, eq_iff, arith, any,
  any-none, any-All_none, All, All-map, Option-cases, Bool-cases, inl, inr,
}
use schemaforge.Core.Names.{FieldName, SchemaName}
use schemaforge.Core.Constraints.{Cardinality}
use schemaforge.Core.FieldType.{FieldType}
use schemaforge.Core.Schema.{FieldDefinition, SchemaDefinition, is_derived, field}
use schemaforge.Core.Schema.Unique.{UniqueNames}
use schemaforge.Core.Value.{Externals}
use schemaforge.Migration.Step.{MigrationStep, add_field, add_relation, rename_field}
use schemaforge.Migration.Diff.Lookup.{Renames, same_type, is_rename_target}
use schemaforge.Migration.Diff.Fields.{
  emit_remove_field, emit_add_field, emit_change_type_with_name, retype_renamed, rename_found,
  rename_steps, removed_steps, added_steps,
}
use schemaforge.Migration.Diff.Engine.{diff, diff_with_renames}
use schemaforge.Migration.Effect.{Cell, present, broken, column, columns, bare_relation, apply_all}
use schemaforge.Migration.Stages.{apply_all-diff}
use schemaforge.Migration.Marks.{marks, marks-diff}
use schemaforge.Migration.Presence.{places, places-diff}
use schemaforge.Migration.Scan.{IsQuiet, any-diff_with_renames}

abbrev pub is_present : Cell → Bool
is_present (present c) = true
is_present _ = false

module _ (X : Externals) (id : String) (old new : SchemaDefinition) (u : UniqueNames old.fields)
    (v : UniqueNames new.fields) (m : String) where
  -- If a stored field changes its type and stays stored, the plan has no step for its required mark, its
  -- index and its default, whatever the new version asks for: its column gets the new type and, as a change
  -- of type leaves them alone in PostgreSQL, keeps the marks of the old version.
  pub retyped_keeps_modifiers :
      (f g : FieldDefinition)
      → field old m ≡ some f
      → field new m ≡ some g
      → is_derived f ≡ false
      → is_derived g ≡ false
      → same_type f.field_type g.field_type ≡ false
      → (any (marks m) (diff {X = X} id old new).steps ≡ false)
        × (apply_all (diff {X = X} id old new).steps (columns old) m
            ≡ present (record (column f) { type = g.field_type }))
  retyped_keeps_modifiers f g o n df dg t = (
    marks-diff X old new m id f g v o n t,
    apply_all-diff X id old new u v m ∙ rw (o, n) (ground arith),
  )

  -- A new stored relation field gets a column that is neither required nor indexed and has no
  -- default, whatever its modifiers are.
  pub new_relation_is_bare :
      (g : FieldDefinition) (target : SchemaName) (cardinality : Cardinality)
      → field old m ≡ none
      → field new m ≡ some g
      → is_derived g ≡ false
      → g.field_type ≡ FieldType.relation target cardinality
      → apply_all (diff {X = X} id old new).steps (columns old) m
        ≡ present (bare_relation (FieldType.relation target cardinality))
  new_relation_is_bare g target cardinality o n d t =
      apply_all-diff X id old new u v m ∙ rw (o, n) (ground arith)

  -- No step of a plan adds or removes the column of a field of both versions. So, as PostgreSQL carries the
  -- steps out, there is a column after the plan exactly if the old version stored the field: also if the
  -- new version derives it, and not if only the new version stores it. If the type of a field changes that
  -- the old version derived, the plan has a step for its column, which does not exist.
  pub presence_follows_old :
      (f g : FieldDefinition)
      → field old m ≡ some f
      → field new m ≡ some g
      → (any (places m) (diff {X = X} id old new).steps ≡ false)
        × (is_present (apply_all (diff {X = X} id old new).steps (columns old) m)
            ≡ not (is_derived f))
        × (is_derived f ≡ true
            → same_type f.field_type g.field_type ≡ false
            → apply_all (diff {X = X} id old new).steps (columns old) m ≡ broken)
  presence_follows_old f g o n = (
    places-diff X old new m id f g o n,
    rw (apply_all-diff X id old new u v m, o, n) (ground arith),
    λ d t. apply_all-diff X id old new u v m ∙ rw (o, n) (ground arith),
  )

-- The step brings a column `m` into being.
abbrev pub creates : {X : Externals} → FieldName → MigrationStep X → Bool
creates m (add_field f) = f.name == m
creates m (add_relation name target cardinality) = name == m
creates m (rename_field old_name new_name) = new_name == m
creates m _ = false

creates-IsQuiet : (X : Externals) (m : FieldName) → IsQuiet (creates {X = X} m)
creates-IsQuiet X m = record {
  type = λ n a b v. refl;
  index = λ n. refl;
  unindex = λ n. refl;
  require = λ n. refl;
  relax = λ n. refl;
  default = λ n v. refl;
  undefault = λ n. refl;
  hook = λ e i. refl;
  unhook = λ e. refl;
  intent = λ e o n. refl;
}

module _ (X : Externals) (id : String) (old new : SchemaDefinition) (renames : Renames)
    (m : FieldName) where
  -- A hint with the new name `m` names an old field that the old version does not have.
  abbrev pub IsStale : FieldName × FieldName → Type 0
  IsStale r = (r.1 == m) ≡ true → field old r.0 ≡ none

  creates-rename_steps :
      (r : FieldName × FieldName)
      → IsStale r
      → any (creates m) (rename_steps {X = X} old new renames r) ≡ false
  unfolding rename_steps rename_found retype_renamed emit_change_type_with_name
  creates-rename_steps (o, n) stale =
      ground (arith, Option-cases (field old o), Option-cases (field new n))

  creates-removed_steps :
      (f : FieldDefinition) → any (creates m) (removed_steps {X = X} old new renames f) ≡ false
  unfolding removed_steps emit_remove_field
  creates-removed_steps f = ground arith

  not_target :
      (n : FieldName)
      → is_rename_target n renames ≡ false
      → is_rename_target m renames ≡ true
      → (n == m) ≡ false
  not_target n a b = elim (Bool-cases (n == m)) [
    | inl e ↦ cc (a, b, ap (λ k. is_rename_target k renames) ((eq_iff n m).0 e))
    | inr e ↦ e
  ]

  creates-added_steps :
      is_rename_target m renames ≡ true
      → (f : FieldDefinition) → any (creates m) (added_steps {X = X} old new renames f) ≡ false
  unfolding added_steps emit_add_field
  creates-added_steps h f = elim (Bool-cases (is_rename_target f.name renames)) [
    | inl t ↦ rw t
    | inr t ↦
        let other : (f.name == m) ≡ false = not_target f.name t h in rw t (ground (arith, other))
  ]

  -- If every hint for the new name `m` is stale, and there is one, then no step of the plan creates a
  -- column `m`, although the new version may have a field of that name.
  pub stale_hint_creates_nothing :
      is_rename_target m renames ≡ true
      → All IsStale renames
      → any (creates m) (diff_with_renames {X = X} id old new renames).steps ≡ false
  stale_hint_creates_nothing h stale =
      any-diff_with_renames (creates m) (creates-IsQuiet X m) id old new renames
      ∙ rw (
        any-All_none _ renames (All-map creates-rename_steps renames stale),
        any-none _ (creates-added_steps h) new.fields,
        any-none _ creates-removed_steps old.fields,
      )
