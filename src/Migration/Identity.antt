-- ===== src/Migration/Identity.antt =====
-- The diff of crates/schema-forge-core/src/migration.rs of a schema with itself.
use schemaforge.Prelude.{
  String, Option, none, some, [], ◌≡◌, refl, eq_refl, arith, All, All-map, for_each-nil,
}
use schemaforge.Core.Constraints.{DefaultValue}
use schemaforge.Core.Schema.{FieldDefinition, SchemaDefinition, field}
use schemaforge.Core.Schema.Unique.{UniqueNames, UniqueNames-find_field}
use schemaforge.Core.Tokens.Lifecycle.{HookEvent}
use schemaforge.Core.Value.{Externals}
use schemaforge.Migration.Diff.Lookup.{same_type_iff, same_default_iff, extract_default}
use schemaforge.Migration.Diff.Fields.{
  removed_steps, added_steps, changed_steps, diff_fields_with_renames,
}
use schemaforge.Migration.Diff.Modifiers.{
  required_steps, index_steps, default_steps, diff_field_modifiers, modifier_steps,
  diff_modifiers_with_renames,
}
use schemaforge.Migration.Diff.Hooks.{hook_map, declared_steps, dropped_steps, diff_hooks}
use schemaforge.Migration.Diff.Engine.{diff}

module _ (X : Externals) (s : SchemaDefinition) where
  -- What is found under the name of a field of the schema is that field.
  abbrev IsOwn : FieldDefinition → Type 0
  IsOwn f = field s f.name ≡ some f

  removed_nil : (f : FieldDefinition) → IsOwn f → removed_steps {X = X} s s [] f ≡ []
  unfolding removed_steps
  removed_nil f h = ground arith

  added_nil : (f : FieldDefinition) → IsOwn f → added_steps {X = X} s s [] f ≡ []
  unfolding added_steps
  added_nil f h = ground arith

  changed_nil : (f : FieldDefinition) → IsOwn f → changed_steps {X = X} s s [] f ≡ []
  unfolding changed_steps
  changed_nil f h = ground (arith, (same_type_iff f.field_type f.field_type).1 refl)

  default_nil : (n : String) (o : Option DefaultValue) → default_steps {X = X} n o o ≡ []
  unfolding default_steps
  default_nil n none = refl
  default_nil n (some v) = rw ((same_default_iff v v).1 refl)

  field_modifiers_nil : (f : FieldDefinition) → diff_field_modifiers {X = X} f f ≡ []
  unfolding diff_field_modifiers required_steps index_steps
  field_modifiers_nil f = rw (default_nil f.name (extract_default f.modifiers)) (ground arith)

  modifier_nil : (f : FieldDefinition) → IsOwn f → modifier_steps {X = X} s s [] f ≡ []
  unfolding modifier_steps
  modifier_nil f h =
      ground (arith, (same_type_iff f.field_type f.field_type).1 refl, field_modifiers_nil f)

  declared_nil : (e : HookEvent) (o : Option String) → declared_steps {X = X} e o o ≡ []
  unfolding declared_steps
  declared_nil e none = refl
  declared_nil e (some i) = rw (eq_refl i)

  dropped_nil : (e : HookEvent) (o : Option String) → dropped_steps {X = X} e o o ≡ []
  unfolding dropped_steps
  dropped_nil e none = refl
  dropped_nil e (some i) = refl

  hooks_nil : diff_hooks {X = X} s s ≡ []
  unfolding diff_hooks
  hooks_nil =
      let m = hook_map (λ _. none) s.annotations in
      simp (λ (e : HookEvent). declared_nil e (m e), λ (e : HookEvent). dropped_nil e (m e))

  -- If no two fields of a schema share a name, its diff with itself has no steps.
  pub steps-diff_self : (id : String) → UniqueNames s.fields → (diff {X = X} id s s).steps ≡ []
  unfolding diff diff_fields_with_renames diff_modifiers_with_renames
  steps-diff_self id u =
      let own : All IsOwn s.fields = unfold field in UniqueNames-find_field s.fields u in
      simp (
        for_each-nil (removed_steps s s []) s.fields (All-map removed_nil s.fields own),
        for_each-nil (added_steps s s []) s.fields (All-map added_nil s.fields own),
        for_each-nil (changed_steps s s []) s.fields (All-map changed_nil s.fields own),
        for_each-nil (modifier_steps s s []) s.fields (All-map modifier_nil s.fields own),
        hooks_nil,
      )
