-- ===== src/Migration/Safety.antt =====
-- How safe the plans of crates/schema-forge-core/src/migration.rs are.
use native.Mathlib.Nat.{le_trans}
use schemaforge.Prelude.{
  Option-cases, ℕ, String, Bool, false, not, ◌&&◌, ◌||◌, List, [], ◌∷◌, ◌≡◌, refl, ◌∙◌, arith, any,
  all, All, any-eq, any-none, is_some, ◌≤◌,
}
use schemaforge.Core.Names.{FieldName}
use schemaforge.Core.Schema.{FieldDefinition, SchemaDefinition, is_derived, field}
use schemaforge.Core.Value.{Externals}
use schemaforge.Migration.Step.{
  MigrationSafety, safe, requires_confirmation, destructive, MigrationStep, safety,
}
use schemaforge.Migration.Plan.{
  MigrationPlan, worse, worst_from, overall_safety, is_safe, has_destructive_steps, is_destructive,
  equals_safe,
}
use schemaforge.Migration.Scan.{IsQuiet, any-diff_with_renames}
use schemaforge.Migration.Diff.Fields.{
  emit_change_type_with_name, emit_remove_field, emit_add_field, retype_renamed, rename_steps,
  removed_steps, added_steps,
}
use schemaforge.Migration.Diff.Lookup.{Renames, is_rename_source}
use schemaforge.Migration.Diff.Engine.{diff_with_renames}

-- The levels, from the safest to the worst.
abbrev pub rank : MigrationSafety → ℕ
rank safe = 0
rank requires_confirmation = 1
rank destructive = 2

rank-worse : (a b : MigrationSafety) → (rank a ≤ rank (worse a b)) × (rank b ≤ rank (worse a b))
unfolding worse
rank-worse a b = ground arith

module _ {X : Externals} where
  rank-worst_from :
      (w : MigrationSafety) (steps : List (MigrationStep X))
      → (rank w ≤ rank (worst_from w steps))
        × All (λ s. rank (safety s) ≤ rank (worst_from w steps)) steps
  unfolding worst_from
  rank-worst_from w [] = (omega arith, tt)
  rank-worst_from w (s ∷ ss) =
      let (first, rest) = rank-worst_from (worse w (safety s)) ss in
      let (left, right) = rank-worse w (safety s) in
      (le_trans left first, (le_trans right first, rest))

  safe-worst_from :
      (w : MigrationSafety) (steps : List (MigrationStep X))
      → equals_safe (worst_from w steps)
        ≡ (equals_safe w && all (λ s. equals_safe (safety s)) steps)
  unfolding worst_from worse
  safe-worst_from w [] = ground arith
  safe-worst_from w (s ∷ ss) = ground (arith, safe-worst_from (worse w (safety s)) ss)

  destructive-worst_from :
      (w : MigrationSafety) (steps : List (MigrationStep X))
      → is_destructive (worst_from w steps)
        ≡ (is_destructive w || any (λ s. is_destructive (safety s)) steps)
  unfolding worst_from worse
  destructive-worst_from w [] = ground arith
  destructive-worst_from w (s ∷ ss) = ground (arith, destructive-worst_from (worse w (safety s)) ss)

  -- The overall level of a plan is at least that of each step; the plan is safe exactly when every
  -- step is, and its level is destructive exactly when `has_destructive_steps` finds such a step.
  pub overall_safety_lem :
      (plan : MigrationPlan X)
      → All (λ s. rank (safety s) ≤ rank (overall_safety plan)) plan.steps
        × (is_safe plan ≡ all (λ s. equals_safe (safety s)) plan.steps)
        × (is_destructive (overall_safety plan) ≡ has_destructive_steps plan)
  unfolding overall_safety is_safe has_destructive_steps
  overall_safety_lem plan = (
    (rank-worst_from safe plan.steps).1,
    safe-worst_from safe plan.steps,
    destructive-worst_from safe plan.steps,
  )

abbrev pub destroys : {X : Externals} → MigrationStep X → Bool
destroys s = is_destructive (safety s)

destroys-IsQuiet : (X : Externals) → IsQuiet (destroys {X = X})
unfolding safety
destroys-IsQuiet X = record {
  type = λ n a b v. refl;
  index = λ n. refl;
  unindex = λ n. refl;
  require = λ n. refl;
  relax = λ n. refl;
  default = λ n v. refl;
  undefault = λ n. refl;
  hook = λ e i. refl;
  unhook = λ e. refl;
  intent = λ e o n. refl;
}

-- A field whose data the new version drops: stored, not renamed away, and in no field of the new one.
abbrev pub loses : SchemaDefinition → Renames → FieldDefinition → Bool
loses new renames f =
    not (is_rename_source f.name renames) && not (is_some (field new f.name)) && not (is_derived f)

module _ (X : Externals) (id : String) (old new : SchemaDefinition) (renames : Renames) where
  destroys-rename_steps :
      (r : FieldName × FieldName) → any destroys (rename_steps {X = X} old new renames r) ≡ false
  unfolding rename_steps retype_renamed emit_change_type_with_name safety
  destroys-rename_steps (o, n) =
      ground (arith, Option-cases (field old o), Option-cases (field new n))

  destroys-removed_steps :
      (f : FieldDefinition)
      → any destroys (removed_steps {X = X} old new renames f) ≡ loses new renames f
  unfolding removed_steps emit_remove_field safety
  destroys-removed_steps f = ground arith

  destroys-added_steps :
      (f : FieldDefinition) → any destroys (added_steps {X = X} old new renames f) ≡ false
  unfolding added_steps emit_add_field safety
  destroys-added_steps f = ground arith

  -- A plan has destructive steps exactly when some stored field of the old version is neither
  -- renamed away by a hint nor the name of a field of the new version.
  pub has_destructive_steps-diff :
      has_destructive_steps (diff_with_renames {X = X} id old new renames)
      ≡ any (loses new renames) old.fields
  unfolding has_destructive_steps
  has_destructive_steps-diff =
      any-diff_with_renames destroys (destroys-IsQuiet X) id old new renames
      ∙ rw
          (
            any-none _ destroys-rename_steps renames,
            any-none _ destroys-added_steps new.fields,
            any-eq _ _ destroys-removed_steps old.fields,
          )
          (ground arith)
