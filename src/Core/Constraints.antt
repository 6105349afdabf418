-- ===== src/Core/Constraints.antt =====
-- crates/schema-forge-core/src/types: text, integer, float and file constraints, enum variants,
-- cardinality, default values, modifiers, schema versions.
pub mod Variants
use schemaforge.Prelude.{
  ℕ, zero, suc, String, Bool, Option, some, List, [], ◌∷◌, ◌==◌, any, if◌then◌else◌, Result, ok,
  err, ◌>>=◌,
}
use schemaforge.Prelude.Int.{ℤ, ltb_ℤ}
use schemaforge.Core.Error.{
  SchemaError, empty_enum_variants, empty_enum_variant, duplicate_enum_variant,
  invalid_integer_range, invalid_schema_version,
}

pub record TextConstraints : Type 0 where
  pub max_length : Option ℕ

pub record IntegerConstraints : Type 0 where
  pub min : Option ℤ
  pub max : Option ℤ

pub record FloatConstraints : Type 0 where
  pub precision : Option ℕ

unfoldable pub with_range : ℤ → ℤ → Result IntegerConstraints SchemaError
with_range min max =
    if ltb_ℤ max min
    then err (invalid_integer_range min max)
    else ok (record { min = some min; max = some max })

abbrev pub check_range : Option ℤ → Option ℤ → Result (Unit {0}) SchemaError
check_range (some min) (some max) =
    if ltb_ℤ max min then err (invalid_integer_range min max) else ok tt
check_range _ _ = ok tt

unfoldable pub validate_range : IntegerConstraints → Result (Unit {0}) SchemaError
validate_range c = check_range c.min c.max

pub data Cardinality : Type 0 where
  one many : Cardinality

-- The variants, in order: non-empty, no empty text, no duplicates.
abbrev pub EnumVariants : Type 0
EnumVariants = List String

-- The loop over the variants; the `HashSet` of those seen is a list.
unfoldable pub check_variants : List String → List String → Result (Unit {0}) SchemaError
check_variants seen [] = ok tt
check_variants seen (v ∷ vs) =
    let rest = check_variants (v ∷ seen) vs in
    if v == ""
    then err empty_enum_variant
    else if any (λ s. s == v) seen
    then err (duplicate_enum_variant v)
    else rest

unfoldable pub enum_variants_new : List String → Result EnumVariants SchemaError
unfolding check_variants
enum_variants_new [] = err empty_enum_variants
enum_variants_new (v ∷ vs) = check_variants [] (v ∷ vs) >>= λ _. ok (v ∷ vs)

-- A float default keeps its text.
pub data DefaultValue : Type 0 where
  string : String → DefaultValue
  integer : ℤ → DefaultValue
  float : String → DefaultValue
  boolean : Bool → DefaultValue

pub data FieldModifier : Type 0 where
  required indexed : FieldModifier
  default : DefaultValue → FieldModifier

pub data MimePattern : Type 0 where
  exact family : String → MimePattern

pub data FileAccess : Type 0 where
  presigned proxied : FileAccess

pub record FileConstraints : Type 0 where
  pub bucket : String
  pub max_size_bytes : ℕ
  pub mime_allowlist : List MimePattern
  pub access : FileAccess

abbrev pub SchemaVersion : Type 0
SchemaVersion = ℕ

unfoldable pub schema_version_new : ℕ → Result SchemaVersion SchemaError
schema_version_new zero = err (invalid_schema_version 0)
schema_version_new (suc v) = ok (suc v)
