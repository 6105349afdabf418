-- ===== src/Migration/Scan.antt =====
-- Searching the plans of `diff_with_renames` of crates/schema-forge-core/src/migration.rs for a kind of
-- step: only the loops that can emit it matter.
use mathlib.Core.Path.{ap₂}
use schemaforge.Prelude.{
  String, Bool, false, ◌||◌, Option, none, some, List, ◌++◌, ◌≡◌, refl, ◌∙◌, arith, any, any-append,
  any-none, any-for_each, for_each, Bool-cases, inl, inr,
}
use schemaforge.Core.Names.{FieldName}
use schemaforge.Core.Constraints.{DefaultValue}
use schemaforge.Core.FieldType.{FieldType}
use schemaforge.Core.Schema.{
  FieldDefinition, SchemaDefinition, is_derived, is_required, is_indexed, field,
}
use schemaforge.Core.Tokens.Lifecycle.{HookEvent, all_hook}
use schemaforge.Core.Value.{Externals}
use schemaforge.Migration.Step.{
  MigrationStep, ValueTransform, change_type, add_index, remove_index, add_required,
  remove_required, set_default, remove_default, add_hook, remove_hook, change_hook_intent,
}
use schemaforge.Migration.Diff.Lookup.{
  Renames, same_type, infer_transform, extract_default, is_rename_target, old_version,
}
use schemaforge.Migration.Diff.Hooks.{hook_map, declared_steps, dropped_steps, diff_hooks}
use schemaforge.Migration.Diff.Fields.{
  retype_renamed, retype_kept, rename_steps, removed_steps, added_steps, changed_steps,
  diff_fields_with_renames,
}
use schemaforge.Migration.Diff.Modifiers.{
  required_steps, index_steps, default_steps, diff_field_modifiers, modifiers_found, modifier_steps,
  diff_modifiers_with_renames,
}
use schemaforge.Migration.Diff.Engine.{diff_with_renames}

-- `p` holds of no step on types, modifiers or hooks.
pub record IsQuiet {X : Externals} (p : MigrationStep X → Bool) : Type 0 where
  pub type :
      (n : FieldName) (a b : FieldType) (v : ValueTransform) → p (change_type n a b v) ≡ false
  pub index : (n : FieldName) → p (add_index n) ≡ false
  pub unindex : (n : FieldName) → p (remove_index n) ≡ false
  pub require : (n : FieldName) → p (add_required n) ≡ false
  pub relax : (n : FieldName) → p (remove_required n) ≡ false
  pub default : (n : FieldName) (v : DefaultValue) → p (set_default n v) ≡ false
  pub undefault : (n : FieldName) → p (remove_default n) ≡ false
  pub hook : (e : HookEvent) (i : String) → p (add_hook e i) ≡ false
  pub unhook : (e : HookEvent) → p (remove_hook e) ≡ false
  pub intent : (e : HookEvent) (o n : String) → p (change_hook_intent e o n) ≡ false

-- It is false of changes of a type and of hooks.
pub record IsStill {X : Externals} (p : MigrationStep X → Bool) : Type 0 where
  pub type :
      (n : FieldName) (a b : FieldType) (v : ValueTransform) → p (change_type n a b v) ≡ false
  pub hook : (e : HookEvent) (i : String) → p (add_hook e i) ≡ false
  pub unhook : (e : HookEvent) → p (remove_hook e) ≡ false
  pub intent : (e : HookEvent) (o n : String) → p (change_hook_intent e o n) ≡ false

quiet-IsStill : {X : Externals} (p : MigrationStep X → Bool) → IsQuiet p → IsStill p
quiet-IsStill p q = record { type = q.type; hook = q.hook; unhook = q.unhook; intent = q.intent }

module _ {X : Externals} (p : MigrationStep X → Bool) (q : IsStill p) where
  any-retype_renamed :
      (n : FieldName) (f : FieldDefinition) (g : Option FieldDefinition)
      → any p (retype_renamed n f g) ≡ false
  unfolding retype_renamed
  any-retype_renamed n f none = refl
  any-retype_renamed n f (some g) =
      ground (arith, q.type n f.field_type g.field_type (infer_transform f.field_type g.field_type))

  any-retype_kept :
      (g : FieldDefinition) (f : Option FieldDefinition) → any p (retype_kept g f) ≡ false
  unfolding retype_kept
  any-retype_kept g none = refl
  any-retype_kept g (some f) =
      ground
        (arith, q.type g.name f.field_type g.field_type (infer_transform f.field_type g.field_type))

  pub any-changed_steps :
      (old new : SchemaDefinition) (renames : Renames) (g : FieldDefinition)
      → any p (changed_steps old new renames g) ≡ false
  unfolding changed_steps
  any-changed_steps old new renames g = elim (Bool-cases (is_rename_target g.name renames)) [
    | inl t ↦ rw t
    | inr t ↦ rw t (any-retype_kept g (field old g.name))
  ]

  any-declared_steps : (e : HookEvent) (o n : Option String) → any p (declared_steps e o n) ≡ false
  unfolding declared_steps
  any-declared_steps e none none = refl
  any-declared_steps e (some o) none = refl
  any-declared_steps e none (some n) = ground (arith, q.hook e n)
  any-declared_steps e (some o) (some n) = ground (arith, q.intent e o n)

  any-dropped_steps : (e : HookEvent) (o n : Option String) → any p (dropped_steps e o n) ≡ false
  unfolding dropped_steps
  any-dropped_steps e none n = refl
  any-dropped_steps e (some o) none = ground (arith, q.unhook e)
  any-dropped_steps e (some o) (some n) = refl

  pub any-diff_hooks : (old new : SchemaDefinition) → any p (diff_hooks old new) ≡ false
  unfolding diff_hooks
  any-diff_hooks old new =
      let o = hook_map (λ _. none) old.annotations in
      let n = hook_map (λ _. none) new.annotations in
      let declared = λ (e : HookEvent). declared_steps {X = X} e (o e) (n e) in
      let dropped = λ (e : HookEvent). dropped_steps {X = X} e (o e) (n e) in
      any-append p (for_each declared all_hook) (for_each dropped all_hook)
      ∙ ap₂ ◌||◌
          (any-for_each p declared all_hook
            ∙ any-none _ (λ e. any-declared_steps e (o e) (n e)) all_hook)
          (any-for_each p dropped all_hook
            ∙ any-none _ (λ e. any-dropped_steps e (o e) (n e)) all_hook)

module _ {X : Externals} (p : MigrationStep X → Bool) (q : IsQuiet p) where
  any-required_steps : (n : FieldName) (a b : Bool) → any p (required_steps n a b) ≡ false
  unfolding required_steps
  any-required_steps n a b = ground (arith, q.require n, q.relax n)

  any-index_steps : (n : FieldName) (a b : Bool) → any p (index_steps n a b) ≡ false
  unfolding index_steps
  any-index_steps n a b = ground (arith, q.index n, q.unindex n)

  any-default_steps :
      (n : FieldName) (a b : Option DefaultValue) → any p (default_steps n a b) ≡ false
  unfolding default_steps
  any-default_steps n none none = refl
  any-default_steps n (some u) none = ground (arith, q.undefault n)
  any-default_steps n none (some v) = ground (arith, q.default n v)
  any-default_steps n (some u) (some v) = ground (arith, q.default n v)

  any-diff_field_modifiers : (f g : FieldDefinition) → any p (diff_field_modifiers f g) ≡ false
  unfolding diff_field_modifiers
  any-diff_field_modifiers f g = simp (
    any-append,
    any-required_steps g.name (is_required f) (is_required g),
    any-index_steps g.name (is_indexed f) (is_indexed g),
    any-default_steps g.name (extract_default f.modifiers) (extract_default g.modifiers),
  )

  any-modifiers_found :
      (g : FieldDefinition) (f : Option FieldDefinition) → any p (modifiers_found g f) ≡ false
  unfolding modifiers_found
  any-modifiers_found g none = refl
  any-modifiers_found g (some f) = elim (Bool-cases (same_type f.field_type g.field_type)) [
    | inl t ↦ rw t (any-diff_field_modifiers f g)
    | inr t ↦ rw t
  ]

  any-modifier_steps :
      (old new : SchemaDefinition) (renames : Renames) (g : FieldDefinition)
      → any p (modifier_steps old new renames g) ≡ false
  unfolding modifier_steps
  any-modifier_steps old new renames g = elim (Bool-cases (is_derived g)) [
    | inl t ↦ rw t
    | inr t ↦ rw t (any-modifiers_found g (old_version old renames g.name))
  ]

module _ {X : Externals} (p : MigrationStep X → Bool) where
  pub any_parts :
      (r a b c d e : List (MigrationStep X))
      → any p c ≡ false
      → any p d ≡ false
      → any p e ≡ false
      → any p ((r ++ (a ++ (b ++ c))) ++ (d ++ e)) ≡ (any p r || (any p a || any p b))
  any_parts r a b c d e hc hd he = simp any-append (ground arith)

module _ {X : Externals} (p : MigrationStep X → Bool) (q : IsQuiet p) where
  -- Only the loops over the hints, the removed and the added fields can emit such a step.
  pub any-diff_with_renames :
      (id : String) (old new : SchemaDefinition) (renames : Renames)
      → any p (diff_with_renames id old new renames).steps ≡ (
          any (λ r. any p (rename_steps old new renames r)) renames
          || (any (λ f. any p (removed_steps old new renames f)) old.fields
              || any (λ f. any p (added_steps old new renames f)) new.fields))
  unfolding diff_with_renames diff_fields_with_renames diff_modifiers_with_renames
  any-diff_with_renames id old new renames =
      any_parts p (for_each (rename_steps old new renames) renames)
        (for_each (removed_steps old new renames) old.fields)
        (for_each (added_steps old new renames) new.fields)
        (for_each (changed_steps old new renames) new.fields)
        (for_each (modifier_steps old new renames) new.fields) (diff_hooks old new)
        (any-for_each p (changed_steps old new renames) new.fields
          ∙ any-none _ (any-changed_steps p (quiet-IsStill p q) old new renames) new.fields)
        (any-for_each p (modifier_steps old new renames) new.fields
          ∙ any-none _ (any-modifier_steps p q old new renames) new.fields)
        (any-diff_hooks p (quiet-IsStill p q) old new)
      ∙ ap₂ ◌||◌ (any-for_each p (rename_steps old new renames) renames) (
          ap₂ ◌||◌ (any-for_each p (removed_steps old new renames) old.fields)
            (any-for_each p (added_steps old new renames) new.fields))
