-- ===== src/Migration/Plan.antt =====
-- crates/schema-forge-core/src/migration.rs: `MigrationPlan` and its errors. The random id of a plan
-- and the ids of schemas are text, and the id is an argument of what creates a plan.
use schemaforge.Prelude.{String, Bool, true, false, List, [], ◌∷◌, any}
use schemaforge.Core.Names.{SchemaName}
use schemaforge.Core.Value.{Externals}
use schemaforge.Migration.Step.{
  MigrationSafety, safe, requires_confirmation, destructive, MigrationStep, safety,
}

pub data MigrationError : Type 0 where
  invalid_migration_id : String → MigrationError
  destructive_without_confirmation : String → MigrationError
  required_field_without_default : String → MigrationError
  unsupported_type_conversion : String → String → String → MigrationError
  empty_migration_plan : MigrationError
  system_schema_protected : String → MigrationError

pub record MigrationPlan (X : Externals) : Type 0 where
  pub id : String
  pub schema_id : String
  pub schema_name : SchemaName
  pub steps : List (MigrationStep X)

-- The `match` of the loop in `overall_safety`.
unfoldable pub worse : MigrationSafety → MigrationSafety → MigrationSafety
worse destructive _ = destructive
worse _ destructive = destructive
worse requires_confirmation _ = requires_confirmation
worse _ requires_confirmation = requires_confirmation
worse _ _ = safe

abbrev pub is_destructive : MigrationSafety → Bool
is_destructive destructive = true
is_destructive _ = false

abbrev pub equals_safe : MigrationSafety → Bool
equals_safe safe = true
equals_safe _ = false

module _ {X : Externals} where
  -- The loop, from the worst level so far.
  unfoldable pub worst_from : MigrationSafety → List (MigrationStep X) → MigrationSafety
  unfolding worse safety
  worst_from worst [] = worst
  worst_from worst (step ∷ steps) = worst_from (worse worst (safety step)) steps

  unfoldable pub overall_safety : MigrationPlan X → MigrationSafety
  unfolding worst_from
  overall_safety plan = worst_from safe plan.steps

  unfoldable pub is_safe : MigrationPlan X → Bool
  unfolding overall_safety
  is_safe plan = equals_safe (overall_safety plan)

  unfoldable pub has_destructive_steps : MigrationPlan X → Bool
  unfolding safety
  has_destructive_steps plan = any (λ s. is_destructive (safety s)) plan.steps
