-- ===== src/Migration/Presence.antt =====
-- Which steps of a plan of crates/schema-forge-core/src/migration.rs add or remove a column.
use schemaforge.Prelude.{
  String, Bool, false, some, [], ◌≡◌, refl, ap, ◌∙◌, ◌==◌, eq_iff, arith, any, any-none, Bool-cases,
  inl, inr, ◌||◌,
}
use schemaforge.Core.Names.{FieldName}
use schemaforge.Core.Schema.{FieldDefinition, SchemaDefinition, field}
use schemaforge.Core.Value.{Externals}
use schemaforge.Migration.Step.{
  MigrationStep, add_field, add_relation, rename_field, remove_field, remove_relation,
}
use schemaforge.Migration.Diff.Fields.{
  emit_remove_field, emit_add_field, removed_steps, added_steps,
}
use schemaforge.Migration.Diff.Engine.{diff}
use schemaforge.Migration.Scan.{IsQuiet, any-diff_with_renames}

-- The step adds, removes or renames a column `m`, or gives one that name.
abbrev pub places : {X : Externals} → FieldName → MigrationStep X → Bool
places m (add_field f) = f.name == m
places m (add_relation name target cardinality) = name == m
places m (rename_field old_name new_name) = (old_name == m) || (new_name == m)
places m (remove_field name) = name == m
places m (remove_relation name) = name == m
places m _ = false

places-IsQuiet : (X : Externals) (m : FieldName) → IsQuiet (places {X = X} m)
places-IsQuiet X m = record {
  type = λ n a b v. refl;
  index = λ n. refl;
  unindex = λ n. refl;
  require = λ n. refl;
  relax = λ n. refl;
  default = λ n v. refl;
  undefault = λ n. refl;
  hook = λ e i. refl;
  unhook = λ e. refl;
  intent = λ e o n. refl;
}

module _ (X : Externals) (old new : SchemaDefinition) (m : FieldName) where
  removed_elsewhere :
      (f g : FieldDefinition)
      → field new m ≡ some g
      → any (places m) (removed_steps {X = X} old new [] f) ≡ false
  unfolding removed_steps emit_remove_field
  removed_elsewhere f g n = elim (Bool-cases (f.name == m)) [
    | inl e ↦
        let kept : field new f.name ≡ some g = ap (field new) ((eq_iff f.name m).0 e) ∙ n in
        rw kept refl
    | inr e ↦ ground (arith, e)
  ]

  added_elsewhere :
      (g f : FieldDefinition)
      → field old m ≡ some f
      → any (places m) (added_steps {X = X} old new [] g) ≡ false
  unfolding added_steps emit_add_field
  added_elsewhere g f o = elim (Bool-cases (g.name == m)) [
    | inl e ↦
        let there : field old g.name ≡ some f = ap (field old) ((eq_iff g.name m).0 e) ∙ o in
        rw there refl
    | inr e ↦ ground (arith, e)
  ]

  -- No step adds or removes the column of a field of both versions.
  pub places-diff :
      (id : String) (f g : FieldDefinition)
      → field old m ≡ some f
      → field new m ≡ some g
      → any (places m) (diff {X = X} id old new).steps ≡ false
  unfolding diff
  places-diff id f g o n =
      any-diff_with_renames (places m) (places-IsQuiet X m) id old new []
      ∙ rw (
        any-none _ (λ k. added_elsewhere k f o) new.fields,
        any-none _ (λ k. removed_elsewhere k g n) old.fields,
      )
