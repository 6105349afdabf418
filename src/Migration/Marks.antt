-- ===== src/Migration/Marks.antt =====
-- Which steps of a plan of crates/schema-forge-core/src/migration.rs change the modifiers of a field.
use schemaforge.Prelude.{
  sym, String, Bool, false, Option, none, some, List, [], ◌∷◌, ◌≡◌, refl, ap, ◌∙◌, ◌==◌, eq_iff,
  arith, any, any-append, any-for_each, any-none, for_each, Bool-cases, inl, inr,
}
use schemaforge.Core.Names.{FieldName}
use schemaforge.Core.Constraints.{DefaultValue}
use schemaforge.Core.Schema.{
  FieldDefinition, SchemaDefinition, is_derived, is_required, is_indexed, find_field, field,
}
use schemaforge.Core.Schema.Unique.{UniqueNames}
use schemaforge.Core.Value.{Externals}
use schemaforge.Migration.Step.{
  MigrationStep, add_required, remove_required, add_index, remove_index, set_default,
  remove_default,
}
use schemaforge.Migration.Diff.Lookup.{same_type, extract_default}
use schemaforge.Migration.Diff.Fields.{
  emit_remove_field, emit_add_field, removed_steps, added_steps, changed_steps,
  diff_fields_with_renames,
}
use schemaforge.Migration.Diff.Modifiers.{
  required_steps, index_steps, default_steps, diff_field_modifiers, modifiers_found, modifier_steps,
  diff_modifiers_with_renames,
}
use schemaforge.Migration.Diff.Hooks.{diff_hooks}
use schemaforge.Migration.Diff.Engine.{diff}
use schemaforge.Migration.Scan.{IsStill, any-changed_steps, any-diff_hooks, any_parts}

-- The step changes the required mark, the index or the default of `m`.
abbrev pub marks : {X : Externals} → FieldName → MigrationStep X → Bool
marks m (add_required n) = n == m
marks m (remove_required n) = n == m
marks m (add_index n) = n == m
marks m (remove_index n) = n == m
marks m (set_default n v) = n == m
marks m (remove_default n) = n == m
marks m _ = false

marks-IsStill : (X : Externals) (m : FieldName) → IsStill (marks {X = X} m)
marks-IsStill X m = record {
  type = λ n a b v. refl;
  hook = λ e i. refl;
  unhook = λ e. refl;
  intent = λ e o n. refl;
}

module _ (X : Externals) (m n : FieldName) (other : (n == m) ≡ false) where
  marks-required_steps : (a b : Bool) → any (marks m) (required_steps {X = X} n a b) ≡ false
  unfolding required_steps
  marks-required_steps a b = ground (arith, other)

  marks-index_steps : (a b : Bool) → any (marks m) (index_steps {X = X} n a b) ≡ false
  unfolding index_steps
  marks-index_steps a b = ground (arith, other)

  marks-default_steps :
      (a b : Option DefaultValue) → any (marks m) (default_steps {X = X} n a b) ≡ false
  unfolding default_steps
  marks-default_steps none none = refl
  marks-default_steps none (some v) = ground (arith, other)
  marks-default_steps (some u) none = ground (arith, other)
  marks-default_steps (some u) (some v) = ground (arith, other)

module _ (X : Externals) (old new : SchemaDefinition) (m : FieldName) where
  marks-modifiers_found :
      (g : FieldDefinition) (f : Option FieldDefinition)
      → (g.name == m) ≡ false
      → any (marks m) (modifiers_found {X = X} g f) ≡ false
  unfolding modifiers_found diff_field_modifiers
  marks-modifiers_found g none other = refl
  marks-modifiers_found g (some f) other = elim (Bool-cases (same_type f.field_type g.field_type)) [
    | inl t ↦ rw t (
        simp (
          any-append,
          marks-required_steps X m g.name other (is_required f) (is_required g),
          marks-index_steps X m g.name other (is_indexed f) (is_indexed g),
          marks-default_steps X m g.name other (extract_default f.modifiers)
              (extract_default g.modifiers),
        ))
    | inr t ↦ rw t refl
  ]

  marks_other :
      (g : FieldDefinition)
      → (g.name == m) ≡ false
      → any (marks m) (modifier_steps {X = X} old new [] g) ≡ false
  unfolding modifier_steps
  marks_other g other = elim (Bool-cases (is_derived g)) [
    | inl d ↦ rw d refl
    | inr d ↦ rw d (marks-modifiers_found g _ other)
  ]

  marks_absent :
      (fs : List FieldDefinition)
      → find_field m fs ≡ none
      → any (λ g. any (marks m) (modifier_steps {X = X} old new [] g)) fs ≡ false
  marks_absent [] h = refl
  marks_absent (g ∷ fs) h = elim (Bool-cases (g.name == m)) [
    | inl e ↦ cc (rw e at h)
    | inr e ↦ rw (marks_other g e) (marks_absent fs (rw e at h))
  ]

  marks_retyped :
      (f g : FieldDefinition)
      → field old g.name ≡ some f
      → same_type f.field_type g.field_type ≡ false
      → any (marks m) (modifier_steps {X = X} old new [] g) ≡ false
  unfolding modifier_steps modifiers_found
  marks_retyped f g o t = elim (Bool-cases (is_derived g)) [
    | inl d ↦ rw d refl
    | inr d ↦ rw (d, o, t) refl
  ]

  marks_found :
      (fs : List FieldDefinition) (f g : FieldDefinition)
      → UniqueNames fs
      → find_field m fs ≡ some g
      → field old m ≡ some f
      → same_type f.field_type g.field_type ≡ false
      → any (λ g. any (marks m) (modifier_steps {X = X} old new [] g)) fs ≡ false
  marks_found [] f g u h o t = cc
  marks_found (k ∷ fs) f g u h o t = elim (Bool-cases (k.name == m)) [
    | inl e ↦
        let named : k.name ≡ m = (eq_iff k.name m).0 e in
        let same : k ≡ g = ground (arith, rw e at h) in
        rw
          (marks_retyped f k (ap (field old) named ∙ o)
            (ap (λ x. same_type f.field_type x.field_type) same ∙ t))
          (marks_absent fs (ap (λ x. find_field x fs) (sym named) ∙ u.0))
    | inr e ↦ rw (marks_other k e) (marks_found fs f g u.1 (rw e at h) o t)
  ]

  removed_unmarked :
      (f : FieldDefinition) → any (marks m) (removed_steps {X = X} old new [] f) ≡ false
  unfolding removed_steps emit_remove_field
  removed_unmarked f = ground arith

  added_unmarked : (f : FieldDefinition) → any (marks m) (added_steps {X = X} old new [] f) ≡ false
  unfolding added_steps emit_add_field
  added_unmarked f = ground arith

  none_marked :
      {A : Type 0} (emit : A → List (MigrationStep X)) (xs : List A)
      → any (λ x. any (marks m) (emit x)) xs ≡ false
      → any (marks m) (for_each emit xs) ≡ false
  none_marked emit xs h = any-for_each (marks m) emit xs ∙ h

  -- A plan has no step for the modifiers of a field whose type it changes.
  pub marks-diff :
      (id : String) (f g : FieldDefinition)
      → UniqueNames new.fields
      → field old m ≡ some f
      → field new m ≡ some g
      → same_type f.field_type g.field_type ≡ false
      → any (marks m) (diff {X = X} id old new).steps ≡ false
  unfolding diff diff_fields_with_renames diff_modifiers_with_renames field
  marks-diff id f g u o n t =
      let still = marks-IsStill X m in
      any_parts (marks m) [] (for_each (removed_steps old new []) old.fields)
        (for_each (added_steps old new []) new.fields)
        (for_each (changed_steps old new []) new.fields)
        (for_each (modifier_steps old new []) new.fields) (diff_hooks old new)
        (none_marked (changed_steps old new []) new.fields
          (any-none _ (any-changed_steps (marks m) still old new []) new.fields))
        (none_marked (modifier_steps old new []) new.fields (marks_found new.fields f g u n o t))
        (any-diff_hooks (marks m) still old new)
      ∙ rw
          (
            none_marked (removed_steps old new []) old.fields
                (any-none _ removed_unmarked old.fields),
            none_marked (added_steps old new []) new.fields (any-none _ added_unmarked new.fields),
          )
          refl
