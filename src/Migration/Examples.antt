-- ===== src/Migration/Examples.antt =====
-- Two versions of a schema, the plans between them, and the theorems of the migration modules at them.
use schemaforge.Migration.Presence.{places}
use schemaforge.Migration.Marks.{marks}
use schemaforge.Prelude.{◌++◌, err}
use schemaforge.Core.Names.{SchemaName}
use schemaforge.Migration.Step.{MigrationStep, drop_schema}
use schemaforge.Migration.Plan.{system_schema_protected}
use schemaforge.Migration.Effect.{present, broken}
use schemaforge.Migration.Gaps.{is_present}
use schemaforge.Prelude.{
  ℕ, String, true, false, none, some, List, [], ◌∷◌, ◌≡◌, refl, eq_iff, arith, ◌≤◌, All, any, all,
  ok,
}
use schemaforge.Core.Constraints.{
  Cardinality, FieldModifier, required, indexed, default, DefaultValue,
}
use schemaforge.Core.FieldType.{FieldType}
use schemaforge.Core.Annotation.{Annotation}
use schemaforge.Core.Schema.{FieldDefinition, SchemaDefinition, field, is_required, is_indexed}
use schemaforge.Core.Schema.Unique.{UniqueNames}
use schemaforge.Core.Tokens.Lifecycle.{HookEvent}
use schemaforge.Core.Value.{Externals}
use schemaforge.Migration.Step.{safety}
use schemaforge.Migration.Plan.{
  MigrationPlan, overall_safety, is_safe, has_destructive_steps, is_destructive, equals_safe,
}
use schemaforge.Migration.Diff.Lookup.{same_type, same_type_iff, is_rename_target, extract_default}
use schemaforge.Migration.Diff.Engine.{diff, diff_with_renames, validate_system_schema_protection}
use schemaforge.Migration.Effect.{column, columns, bare_relation, apply_all}
use schemaforge.Migration.Refines.{Compatible, diff_refines}
use schemaforge.Migration.Gaps.{
  retyped_keeps_modifiers, new_relation_is_bare, presence_follows_old, creates,
  stale_hint_creates_nothing,
}
use schemaforge.Migration.Safety.{rank, overall_safety_lem, loses, has_destructive_steps-diff}
use schemaforge.Migration.Protection.{validate_system_schema_protection-diff}
use schemaforge.Migration.Identity.{steps-diff_self}

abbrev plain : Externals
plain = record { F64 = ℕ; DateTime = ℕ; Json = ℕ }

abbrev make : String → FieldType → List FieldModifier → FieldDefinition
make name type modifiers = record {
  name = name;
  field_type = type;
  modifiers = modifiers;
  annotations = [];
  derived_from = none;
}

abbrev short_text : FieldType
short_text = FieldType.text (record { max_length = some 255 })

abbrev any_integer : FieldType
any_integer = FieldType.integer (record { min = none; max = none })

abbrev schema : List FieldDefinition → List Annotation → SchemaDefinition
schema fields annotations = record {
  id = "schema_1";
  name = "Contact";
  fields = fields;
  annotations = annotations;
}

-- The old version: a required name, a phone number as text, a fax number.
abbrev first : SchemaDefinition
first =
    schema
      (make "name" short_text (required ∷ [])
        ∷ make "phone" short_text []
        ∷ make "fax" short_text []
        ∷ [])
      (Annotation.hook HookEvent.before_change "check" ∷ [])

-- The new version: an indexed name, the phone number as an integer, and a status with a default.
abbrev second : SchemaDefinition
second =
    schema
      (make "name" short_text (indexed ∷ [])
        ∷ make "phone" any_integer []
        ∷ make "status" short_text (required ∷ default (DefaultValue.string "new") ∷ [])
        ∷ [])
      (Annotation.hook HookEvent.before_change "check twice"
        ∷ Annotation.hook HookEvent.after_read "mask"
        ∷ [])

first_unique : UniqueNames first.fields
first_unique = (refl, (refl, (refl, tt)))

second_unique : UniqueNames second.fields
second_unique = (refl, (refl, (refl, tt)))

compatible : Compatible first second
unfolding field is_required is_indexed extract_default
compatible = record {
  stays = λ m f g p q. ground arith;
  fixed = λ m f g p q d. ground arith;
  carried = λ m f g p q d t. ground (
    arith,
    eq_iff "name" m,
    eq_iff "phone" m,
    eq_iff "name" "phone",
    (same_type_iff f.field_type g.field_type).1,
  );
  addable = λ m g p q. ground arith;
}

diff_refines_example :
    apply_all (diff {X = plain} "migration_1" first second).steps (columns first) "status"
    ≡ columns second "status"
diff_refines_example =
    diff_refines plain "migration_1" first second first_unique second_unique compatible "status"

steps-diff_self_example : (diff {X = plain} "migration_1" first first).steps ≡ []
steps-diff_self_example = steps-diff_self plain first "migration_1" first_unique

abbrev plan : MigrationPlan plain
plan = diff "migration_1" first second

overall_safety_lem_example :
    All (λ s. rank (safety s) ≤ rank (overall_safety plan)) plan.steps
    × (is_safe plan ≡ all (λ s. equals_safe (safety s)) plan.steps)
    × (is_destructive (overall_safety plan) ≡ has_destructive_steps plan)
overall_safety_lem_example = overall_safety_lem plan

has_destructive_steps-diff_example :
    has_destructive_steps (diff_with_renames {X = plain} "migration_1" first second [])
    ≡ any (loses second []) first.fields
has_destructive_steps-diff_example = has_destructive_steps-diff plain "migration_1" first second []

-- A system schema.
abbrev own : SchemaDefinition
own = record first { annotations = Annotation.system ∷ [] }

validate_system_schema_protection-diff_example :
    ((before after : List Annotation)
      → (Annotation.system ∷ []) ≡ before ++ Annotation.system ∷ after
      → (plan : MigrationPlan plain) (xs ys : List (MigrationStep plain)) (name : SchemaName)
      → plan.steps ≡ xs ++ drop_schema name ∷ ys
      → validate_system_schema_protection own plan ≡ err (system_schema_protected "Contact"))
    × (validate_system_schema_protection own
          (diff_with_renames {X = plain} "migration_1" own second [])
        ≡ ok tt)
validate_system_schema_protection-diff_example =
    validate_system_schema_protection-diff plain "migration_1" own second []

-- The phone number becomes a required integer, and a required relation and a derived field are added.
abbrev stricter : SchemaDefinition
stricter =
    schema
      (make "phone" any_integer (required ∷ [])
        ∷ make "company" (FieldType.relation "Company" Cardinality.one) (required ∷ [])
        ∷ record (make "fax" short_text []) { derived_from = some "contact" }
        ∷ [])
      []

stricter_unique : UniqueNames stricter.fields
stricter_unique = (refl, (refl, (refl, tt)))

retyped_keeps_modifiers_example :
    (any (marks "phone") (diff {X = plain} "migration_1" first stricter).steps ≡ false)
    × (apply_all (diff {X = plain} "migration_1" first stricter).steps (columns first) "phone"
        ≡ present (record (column (make "phone" short_text [])) { type = any_integer }))
unfolding field same_type
retyped_keeps_modifiers_example =
    retyped_keeps_modifiers plain "migration_1" first stricter first_unique stricter_unique "phone"
      (make "phone" short_text []) (make "phone" any_integer (required ∷ [])) refl refl refl refl
      refl

new_relation_is_bare_example :
    apply_all (diff {X = plain} "migration_1" first stricter).steps (columns first) "company"
    ≡ present (bare_relation (FieldType.relation "Company" Cardinality.one))
unfolding field
new_relation_is_bare_example =
    new_relation_is_bare plain "migration_1" first stricter first_unique stricter_unique "company"
      (make "company" (FieldType.relation "Company" Cardinality.one) (required ∷ [])) "Company"
      Cardinality.one refl refl refl refl

-- The derived field changes its type.
abbrev changed : SchemaDefinition
changed = schema (record (make "fax" any_integer []) { derived_from = some "contact" } ∷ []) []

presence_follows_old_example :
    (any (places "fax") (diff {X = plain} "migration_1" stricter changed).steps ≡ false)
    × (is_present (
          apply_all
            (diff {X = plain} "migration_1" stricter changed).steps
            (columns stricter)
            "fax")
        ≡ false)
    × (true ≡ true
        → same_type short_text any_integer ≡ false
        → apply_all (diff {X = plain} "migration_1" stricter changed).steps (columns stricter) "fax"
          ≡ broken)
unfolding field same_type
presence_follows_old_example =
    presence_follows_old plain "migration_1" stricter changed stricter_unique (refl, tt) "fax"
      (record (make "fax" short_text []) { derived_from = some "contact" })
      (record (make "fax" any_integer []) { derived_from = some "contact" }) refl refl

stale_hint_creates_nothing_example :
    any
      (creates "status")
      (diff_with_renames {X = plain} "migration_1" first second (("state", "status") ∷ [])).steps
    ≡ false
unfolding field is_rename_target
stale_hint_creates_nothing_example =
    stale_hint_creates_nothing plain "migration_1" first second (("state", "status") ∷ []) "status"
      refl (λ _. refl, tt)
