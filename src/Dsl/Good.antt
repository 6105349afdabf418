-- ===== src/Dsl/Good.antt =====
-- What the parser of crates/schema-forge-dsl/src/parser.rs promises of the schemas that it returns.
pub mod Names
pub mod Params
pub mod File
pub mod Types
pub mod Notes
pub mod Member
pub mod Annotations
pub mod Accepted
use schemaforge.Prelude.{
  ℕ, ◌<◌, ◌≤◌, ◌^◌, String, Option, none, some, List, [], ◌∷◌, ◌≢◌, ◌≡◌, All, any, true, ◌==◌, keep,
  length,
}
use schemaforge.Prelude.Int.{ℤ, ◌≤ℤ◌}
use schemaforge.Core.Names.{reserved_field_names, reserved_schema_names}
use schemaforge.Core.Names.Valid.{SnakeCase, PascalCase}
use schemaforge.Core.Constraints.{
  TextConstraints, IntegerConstraints, FloatConstraints, FileConstraints, DefaultValue,
  FieldModifier, MimePattern, exact, family,
}
use schemaforge.Core.Constraints.Variants.{GoodVariants, itself}
use schemaforge.Core.FieldType.{FieldType, Fields, end, field, FieldAnnotation}
use schemaforge.Core.Annotation.{Annotation, TenantKind, kind}
use schemaforge.Core.Schema.{FieldDefinition, SchemaDefinition, field_key}
use schemaforge.Core.Schema.Unique.{Distinct}
use schemaforge.Dsl.Literals.Bounds.{FitsI64}
use schemaforge.Dsl.Annotations.{valid_events}
use schemaforge.Dsl.Parse.{has_primary}

abbrev pub GoodFieldName : String → Type 0
GoodFieldName s = SnakeCase s × All (λ r. r ≢ s) reserved_field_names

abbrev pub GoodSchemaName : String → Type 0
GoodSchemaName s = PascalCase s × All (λ r. r ≢ s) reserved_schema_names

abbrev pub Below : ℕ → Option ℕ → Type 0
Below bound none = Unit
Below bound (some n) = n < bound

abbrev pub Fits : Option ℤ → Type 0
Fits none = Unit
Fits (some z) = FitsI64 z

abbrev pub InOrder : Option ℤ → Option ℤ → Type 0
InOrder (some a) (some b) = a ≤ℤ b
InOrder _ _ = Unit

abbrev pub GoodInteger : IntegerConstraints → Type 0
GoodInteger c = Fits c.min × Fits c.max × InOrder c.min c.max

abbrev pub GoodMime : MimePattern → Type 0
GoodMime (exact s) = s ≢ ""
GoodMime (family s) = s ≢ ""

abbrev pub GoodFile : FileConstraints → Type 0
GoodFile c =
    (c.bucket ≢ "")
    × (0 < c.max_size_bytes)
    × (c.max_size_bytes < 2 ^ 64)
    × (c.mime_allowlist ≢ [])
    × All GoodMime c.mime_allowlist

abbrev pub GoodDefault : DefaultValue → Type 0
GoodDefault (DefaultValue.integer z) = FitsI64 z
GoodDefault _ = Unit

abbrev pub GoodModifier : FieldModifier → Type 0
GoodModifier (FieldModifier.default value) = GoodDefault value
GoodModifier _ = Unit

abbrev pub IsVariant : FieldType → String → Type 0
IsVariant (FieldType.enum variants) s = any (λ v. v == s) variants ≡ true
IsVariant _ s = ⊥

-- Colours are for an enum, at least one, and each for one of its variants.
abbrev pub GoodNote : FieldType → FieldAnnotation → Type 0
GoodNote t (FieldAnnotation.enum_colors colors) =
    (colors ≢ []) × All (λ entry. IsVariant t entry.0) colors
GoodNote t _ = Unit

abbrev pub names_of : Fields → List String
names_of end = []
names_of (field name field_type modifiers annotations source rest) = name ∷ names_of rest

unfoldable mutual
  pub GoodType : FieldType → Type 0
  GoodType (FieldType.text c) = Below (2 ^ 32) c.max_length
  GoodType (FieldType.integer c) = GoodInteger c
  GoodType (FieldType.float c) = Below (2 ^ 32) c.precision
  GoodType (FieldType.enum variants) = GoodVariants variants
  GoodType (FieldType.relation target cardinality) = GoodSchemaName target
  GoodType (FieldType.array t) = GoodType t
  GoodType (FieldType.composite fields) = Distinct itself (names_of fields) × GoodFields fields
  GoodType (FieldType.file c) = GoodFile c
  GoodType _ = Unit

  pub GoodFields : Fields → Type 0
  GoodFields end = Unit
  GoodFields (field name field_type modifiers annotations source rest) =
      GoodFieldName name
      × GoodType field_type
      × All GoodModifier modifiers
      × All (GoodNote field_type) annotations
      × GoodFields rest

unfoldable pub GoodField : FieldDefinition → Type 0
unfolding GoodType
GoodField f =
    GoodFieldName f.name
    × GoodType f.field_type
    × All GoodModifier f.modifiers
    × All (GoodNote f.field_type) f.annotations

abbrev pub GoodAnnotation : Annotation → Type 0
GoodAnnotation (Annotation.version v) = (0 < v) × (v < 2 ^ 32)
GoodAnnotation (Annotation.display name) = GoodFieldName name
GoodAnnotation (Annotation.tenant (TenantKind.child parent)) = GoodSchemaName parent
GoodAnnotation (Annotation.webhook events url secret) =
    All (λ e. any (λ v. v == e) valid_events ≡ true) events
GoodAnnotation _ = Unit

-- A schema that can be stored: valid names, at least one field, no two fields of a name, no two
-- annotations of a kind, at most one primary column, and good parts.
unfoldable pub GoodSchema : SchemaDefinition → Type 0
unfolding GoodField
GoodSchema s =
    GoodSchemaName s.name
    × (s.fields ≢ [])
    × All GoodField s.fields
    × Distinct field_key s.fields
    × All GoodAnnotation s.annotations
    × Distinct kind s.annotations
    × (length (keep has_primary s.fields) ≤ 1)
