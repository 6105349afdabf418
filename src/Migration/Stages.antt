-- ===== src/Migration/Stages.antt =====
-- The loops of `DiffEngine::diff` of crates/schema-forge-core/src/migration.rs, one after the other, and
-- the column that the whole plan leaves at each name.
use schemaforge.Prelude.{
  String, Option, none, some, List, [], ◌∷◌, ◌++◌, ◌≡◌, refl, ap, ◌==◌, arith, for_each,
  if◌then◌else◌, Option-cases, Bool-cases, inl, inr, ◌∙◌,
}
use schemaforge.Core.Names.{FieldName}
use schemaforge.Core.Schema.{FieldDefinition, SchemaDefinition, is_derived, find_field, field}
use schemaforge.Core.Schema.Unique.{UniqueNames, name-find_field}
use schemaforge.Core.Tokens.Lifecycle.{HookEvent, all_hook}
use schemaforge.Core.Value.{Externals}
use schemaforge.Migration.Step.{MigrationStep}
use schemaforge.Migration.Diff.Fields.{
  removed_steps, added_steps, changed_steps, diff_fields_with_renames,
}
use schemaforge.Migration.Diff.Modifiers.{modifier_steps, diff_modifiers_with_renames}
use schemaforge.Migration.Diff.Hooks.{diff_hooks, declared_steps, dropped_steps, hook_map}
use schemaforge.Migration.Diff.Engine.{diff}
use schemaforge.Migration.Effect.{
  Cell, absent, present, Table, stored, columns, apply_all, apply_all-append,
}
use schemaforge.Migration.Loops.{on_found, apply_all-for_each}
use schemaforge.Migration.Local.{
  added_column, on_removed, on_added, on_kept, on_modified, removed-IsLocal, added-IsLocal,
  changed-IsLocal, modified-IsLocal,
}

-- A loop whose every round leaves the table alone.
for_each_inert :
    {X : Externals} {A : Type 0} (emit : A → List (MigrationStep X))
    → ((a : A) (t : Table) → apply_all (emit a) t ≡ t)
    → (xs : List A) (t : Table) → apply_all (for_each emit xs) t ≡ t
unfolding apply_all
for_each_inert emit h [] t = refl
for_each_inert emit h (x ∷ xs) t =
    apply_all-append (emit x) (for_each emit xs) t
    ∙ for_each_inert emit h xs (apply_all (emit x) t)
    ∙ h x t

declared_inert :
    (X : Externals) (e : HookEvent) (o n : Option String) (t : Table)
    → apply_all (declared_steps {X = X} e o n) t ≡ t
unfolding declared_steps apply_all
declared_inert X e none none t = refl
declared_inert X e (some o) none t = refl
declared_inert X e none (some n) t = refl
declared_inert X e (some o) (some n) t = elim (Bool-cases (o == n)) [ inl p ↦ rw p | inr p ↦ rw p ]

dropped_inert :
    (X : Externals) (e : HookEvent) (o n : Option String) (t : Table)
    → apply_all (dropped_steps {X = X} e o n) t ≡ t
unfolding dropped_steps apply_all
dropped_inert X e none n t = refl
dropped_inert X e (some o) none t = refl
dropped_inert X e (some o) (some n) t = refl

hooks_inert :
    (X : Externals) (old new : SchemaDefinition) (t : Table)
    → apply_all (diff_hooks {X = X} old new) t ≡ t
unfolding diff_hooks
hooks_inert X old new t =
    let o = hook_map (λ _. none) old.annotations in
    let n = hook_map (λ _. none) new.annotations in
    let declared = λ (e : HookEvent). declared_steps {X = X} e (o e) (n e) in
    let dropped = λ (e : HookEvent). dropped_steps {X = X} e (o e) (n e) in
    apply_all-append (for_each declared all_hook) (for_each dropped all_hook) t
    ∙ for_each_inert dropped (λ e. dropped_inert X e (o e) (n e)) all_hook _
    ∙ for_each_inert declared (λ e. declared_inert X e (o e) (n e)) all_hook t

apply_all_parts :
    {X : Externals} (a b c d e : List (MigrationStep X)) (t : Table)
    → apply_all ((a ++ (b ++ c)) ++ (d ++ e)) t
      ≡ apply_all e (apply_all d (apply_all c (apply_all b (apply_all a t))))
apply_all_parts a b c d e t = simp apply_all-append

-- The column that the plan leaves, from the old and the new version of a field.
abbrev pub migrated : Option FieldDefinition → Option FieldDefinition → Cell
migrated none none = absent
migrated (some f) none = absent
migrated none (some g) = if is_derived g then absent else present (added_column g)
migrated (some f) (some g) = on_modified g (some f) (on_kept g (some f) (stored (some f)))

module _ (X : Externals) (id : String) (old new : SchemaDefinition) where
  -- The stages of the plan at one name, each as the lemma on its loop gives it.
  abbrev staged : FieldName → Cell
  staged m =
      let o = find_field m old.fields in
      let n = find_field m new.fields in
      on_found (λ g. on_modified g (field old g.name)) n
        (on_found (λ g. on_kept g (field old g.name)) n
          (on_found (on_added old) n (on_found (on_removed new) o (columns old m))))

  -- The table after each of the loops.
  abbrev after_removed : Table
  after_removed = apply_all (for_each (removed_steps {X = X} old new []) old.fields) (columns old)

  abbrev after_added : Table
  after_added = apply_all (for_each (added_steps {X = X} old new []) new.fields) after_removed

  abbrev after_changed : Table
  after_changed = apply_all (for_each (changed_steps {X = X} old new []) new.fields) after_added

  abbrev after_modified : Table
  after_modified = apply_all (for_each (modifier_steps {X = X} old new []) new.fields) after_changed

  apply_all-diff_stages : apply_all (diff {X = X} id old new).steps (columns old) ≡ after_modified
  unfolding diff diff_fields_with_renames diff_modifiers_with_renames
  apply_all-diff_stages =
      apply_all_parts (for_each (removed_steps {X = X} old new []) old.fields)
        (for_each (added_steps {X = X} old new []) new.fields)
        (for_each (changed_steps {X = X} old new []) new.fields)
        (for_each (modifier_steps {X = X} old new []) new.fields) (diff_hooks old new) (columns old)
      ∙ hooks_inert X old new after_modified

  diff-staged :
      UniqueNames old.fields
      → UniqueNames new.fields
      → (m : FieldName) → after_modified m ≡ staged m
  diff-staged u v m = rw (
    apply_all-for_each _ _ (modified-IsLocal X old new) new.fields v,
    apply_all-for_each _ _ (changed-IsLocal X old new) new.fields v,
    apply_all-for_each _ _ (added-IsLocal X old new) new.fields v,
    apply_all-for_each _ _ (removed-IsLocal X old new) old.fields u,
  )

  staged-migrated : (m : FieldName) → staged m ≡ migrated (field old m) (field new m)
  unfolding field
  staged-migrated m = elim (Option-cases (find_field m old.fields)) [
    | inl o ↦ elim (Option-cases (find_field m new.fields)) [
      | inl n ↦ rw (o, n)
      | inr (g, n) ↦
          let go = ap (λ k. find_field k old.fields) (name-find_field m new.fields g n) ∙ o in
          rw (o, n, go) (ground arith)
    ]
    | inr (f, o) ↦
        let fn = ap (λ k. find_field k new.fields) (name-find_field m old.fields f o) in
        elim (Option-cases (find_field m new.fields)) [
          | inl n ↦ rw (o, n, fn, n) (ground arith)
          | inr (g, n) ↦
              let go = ap (λ k. find_field k old.fields) (name-find_field m new.fields g n) ∙ o in
              rw (o, n, fn ∙ n, go) (ground arith)
        ]
  ]

  pub apply_all-diff :
      UniqueNames old.fields
      → UniqueNames new.fields
      → (m : FieldName)
      → apply_all (diff {X = X} id old new).steps (columns old) m
        ≡ migrated (field old m) (field new m)
  apply_all-diff u v m =
      ap (λ (t : Table). t m) apply_all-diff_stages ∙ diff-staged u v m ∙ staged-migrated m
