-- ===== src/Migration/Refines.antt =====
-- `DiffEngine::diff` of crates/schema-forge-core/src/migration.rs against what a plan is for: the columns
-- of the two versions.
use schemaforge.Prelude.{
  true, String, Bool, false, Option, none, some, ◌≡◌, refl, ◌∙◌, arith, Option-cases, Bool-cases,
  inl, inr,
}
use schemaforge.Core.FieldType.{FieldType}
use schemaforge.Core.Schema.{
  FieldDefinition, SchemaDefinition, is_derived, is_required, is_indexed, field,
}
use schemaforge.Core.Schema.Unique.{UniqueNames}
use schemaforge.Core.Value.{Externals}
use schemaforge.Migration.Diff.Lookup.{same_type, extract_default, same_type_iff, same_default_iff}
use schemaforge.Migration.Diff.Engine.{diff}
use schemaforge.Core.Constraints.{DefaultValue}
use schemaforge.Migration.Local.{on_required, on_indexed, on_default, on_modifiers, retyped}
use schemaforge.Migration.Diff.Lookup.{same_default}
use schemaforge.Migration.Effect.{Column, present, column, stored, columns, apply_all}
use schemaforge.Migration.Stages.{migrated, apply_all-diff}

pub record SameModifiers (f g : FieldDefinition) : Type 0 where
  pub required : is_required f ≡ is_required g
  pub indexed : is_indexed f ≡ is_indexed g
  pub default : extract_default f.modifiers ≡ extract_default g.modifiers

pub record IsBare (g : FieldDefinition) : Type 0 where
  pub required : is_required g ≡ false
  pub indexed : is_indexed g ≡ false
  pub default : extract_default g.modifiers ≡ none

-- A new relation field asks for no modifiers.
abbrev pub IsAddable : FieldDefinition → Type 0
IsAddable g = elim g.field_type [ FieldType.relation target cardinality ↦ IsBare g | _ ↦ Unit {0} ]

-- What the plans can express: a field stays stored or derived, a derived one keeps its type, the modifiers
-- of a stored one change only while its type stays, and a new relation has none.
pub record Compatible (old new : SchemaDefinition) : Type 0 where
  pub stays :
      (m : String) (f g : FieldDefinition)
      → field old m ≡ some f
      → field new m ≡ some g
      → is_derived f ≡ is_derived g
  pub fixed :
      (m : String) (f g : FieldDefinition)
      → field old m ≡ some f
      → field new m ≡ some g
      → is_derived f ≡ true
      → same_type f.field_type g.field_type ≡ true
  pub carried :
      (m : String) (f g : FieldDefinition)
      → field old m ≡ some f
      → field new m ≡ some g
      → is_derived f ≡ false
      → same_type f.field_type g.field_type ≡ false
      → SameModifiers f g
  pub addable :
      (m : String) (g : FieldDefinition) → field old m ≡ none → field new m ≡ some g → IsAddable g

migrated_added : (g : FieldDefinition) → IsAddable g → migrated none (some g) ≡ stored (some g)
unfolding column
migrated_added g h = ground arith

on_required-present :
    (after : Bool) (c : Column)
    → on_required c.required after (present c) ≡ present (record c { required = after })
on_required-present after c = ground arith

on_indexed-present :
    (after : Bool) (c : Column)
    → on_indexed c.indexed after (present c) ≡ present (record c { indexed = after })
on_indexed-present after c = ground arith

on_default-present :
    (before after : Option DefaultValue) (c : Column)
    → c.default ≡ before
    → on_default before after (present c) ≡ present (record c { default = after })
on_default-present none none c h = cc h
on_default-present none (some v) c h = refl
on_default-present (some u) none c h = refl
on_default-present (some u) (some v) c h = elim (Bool-cases (same_default u v)) [
  | inl e ↦ rw e (cc (h, (same_default_iff u v).0 e))
  | inr e ↦ rw e refl
]

-- With the type kept, the modifier steps make the new column of the old one.
on_modifiers-column :
    (f g : FieldDefinition)
    → f.field_type ≡ g.field_type
    → on_modifiers f g (present (column f)) ≡ present (column g)
unfolding column
on_modifiers-column f g e =
    let a : Column = column f in
    let b : Column = record a { required = is_required g } in
    let c : Column = record b { indexed = is_indexed g } in
    rw
      (
        on_required-present (is_required g) a,
        on_indexed-present (is_indexed g) b,
        on_default-present (extract_default f.modifiers) (extract_default g.modifiers) c refl,
      )
      (cc e)

retyped-column :
    (f g : FieldDefinition)
    → SameModifiers f g
    → retyped g.field_type (present (column f)) ≡ present (column g)
unfolding column
retyped-column f g s = cc (s.required, s.indexed, s.default)

migrated_kept :
    (f g : FieldDefinition)
    → is_derived f ≡ is_derived g
    → (is_derived f ≡ true → same_type f.field_type g.field_type ≡ true)
    → (is_derived f ≡ false → same_type f.field_type g.field_type ≡ false → SameModifiers f g)
    → migrated (some f) (some g) ≡ stored (some g)
migrated_kept f g d k c = elim (Bool-cases (is_derived g)) [
  | inl derived ↦ let same = k (d ∙ derived) in rw (d, derived, same)
  | inr stored' ↦ elim (Bool-cases (same_type f.field_type g.field_type)) [
    | inl same ↦
        rw (d, stored', same)
          (on_modifiers-column f g ((same_type_iff f.field_type g.field_type).0 same))
    | inr other ↦ rw (d, stored', other) (retyped-column f g (c (d ∙ stored') other))
  ]
]

module _ (X : Externals) (id : String) (old new : SchemaDefinition) where
  -- If no two fields of either version share a name, and the versions are compatible (a field of both
  -- stays stored or stays derived, a derived one keeps its type, a stored one that changes its type keeps
  -- its modifiers, and a new relation has none), then the steps of the plan turn the columns of the old
  -- version into exactly the columns of the new one, and no step finds its column absent, or one that it
  -- adds present. A step changes the part of a column that it names, as in PostgreSQL.
  pub diff_refines :
      UniqueNames old.fields
      → UniqueNames new.fields
      → Compatible old new
      → (m : String) → apply_all (diff {X = X} id old new).steps (columns old) m ≡ columns new m
  diff_refines u v c m = apply_all-diff X id old new u v m ∙ agree
    where
      agree : migrated (field old m) (field new m) ≡ columns new m
      agree = elim (Option-cases (field old m)) [
        | inl o ↦ elim (Option-cases (field new m)) [
          | inl n ↦ rw (o, n)
          | inr (g, n) ↦ rw (o, n) (migrated_added g (c.addable m g o n))
        ]
        | inr (f, o) ↦ elim (Option-cases (field new m)) [
          | inl n ↦ rw (o, n)
          | inr (g, n) ↦
              rw (o, n)
                (migrated_kept f g (c.stays m f g o n) (c.fixed m f g o n) (c.carried m f g o n))
        ]
      ]
