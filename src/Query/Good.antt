-- ===== src/Query/Good.antt =====
-- What a filter of crates/schema-forge-core/src/query.rs has to be to pass its validation.
use schemaforge.Prelude.{
  String, Bool, true, some, List, [], ◌∷◌, ◌++◌, ◌≡◌, ◌≢◌, ◌↔◌, refl, arith, for_each, All,
}
use schemaforge.Prelude.Int.{ℤ}
use schemaforge.Core.Names.{SchemaName}
use schemaforge.Core.Constraints.{
  TextConstraints, IntegerConstraints, FloatConstraints, FileConstraints, EnumVariants, Cardinality,
}
use schemaforge.Core.FieldType.{FieldType, Fields}
use schemaforge.Core.Schema.{FieldDefinition, SchemaDefinition, field}
use schemaforge.Core.Value.{Externals, DynamicValue}
use schemaforge.Query.Path.{FieldPath, root, is_simple}
use schemaforge.Query.Filter.{
  Filter, Filters, eq, ne, gt, gte, lt, lte, contains, starts_with, in_set, and, or, negate,
  no_filters, filter, is_text_like, check_type_compat,
}

-- The values that a field of a type may be compared with.
pub data Fits {X : Externals} : FieldType → DynamicValue X → Type 0 where
  null : {t : FieldType} → Fits t DynamicValue.null
  text : {c : TextConstraints} {s : String} → Fits (FieldType.text c) (DynamicValue.text s)
  rich_text : {s : String} → Fits FieldType.rich_text (DynamicValue.text s)
  integer : {c : IntegerConstraints} {i : ℤ} → Fits (FieldType.integer c) (DynamicValue.integer i)
  float : {c : FloatConstraints} {x : X.F64} → Fits (FieldType.float c) (DynamicValue.float x)
  float_integer : {c : FloatConstraints} {i : ℤ} → Fits (FieldType.float c) (DynamicValue.integer i)
  boolean : {b : Bool} → Fits FieldType.boolean (DynamicValue.boolean b)
  date_time : {d : X.DateTime} → Fits FieldType.date_time (DynamicValue.date_time d)
  enum : {vs : EnumVariants} {s : String} → Fits (FieldType.enum vs) (DynamicValue.enum s)
  enum_text : {vs : EnumVariants} {s : String} → Fits (FieldType.enum vs) (DynamicValue.text s)
  json : {v : DynamicValue X} → Fits FieldType.json v
  relation :
      {t : SchemaName} {c : Cardinality} {v : DynamicValue X} → Fits (FieldType.relation t c) v
  array : {t : FieldType} {v : DynamicValue X} → Fits (FieldType.array t) v
  composite : {fs : Fields} {v : DynamicValue X} → Fits (FieldType.composite fs) v
  file : {c : FileConstraints} {v : DynamicValue X} → Fits (FieldType.file c) v

module _ {X : Externals} where
  pub check_type_compat→Fits :
      (n : String) (t : FieldType) (v : DynamicValue X) → check_type_compat n t v ≡ [] → Fits t v
  unfolding check_type_compat
  check_type_compat→Fits n t DynamicValue.null h = null
  check_type_compat→Fits n (FieldType.text c) (DynamicValue.text s) h = text
  check_type_compat→Fits n FieldType.rich_text (DynamicValue.text s) h = rich_text
  check_type_compat→Fits n (FieldType.integer c) (DynamicValue.integer i) h = integer
  check_type_compat→Fits n (FieldType.float c) (DynamicValue.float x) h = float
  check_type_compat→Fits n (FieldType.float c) (DynamicValue.integer i) h = float_integer
  check_type_compat→Fits n FieldType.boolean (DynamicValue.boolean b) h = boolean
  check_type_compat→Fits n FieldType.date_time (DynamicValue.date_time d) h = date_time
  check_type_compat→Fits n (FieldType.enum vs) (DynamicValue.enum s) h = enum
  check_type_compat→Fits n (FieldType.enum vs) (DynamicValue.text s) h = enum_text
  check_type_compat→Fits n FieldType.json v h = json
  check_type_compat→Fits n (FieldType.relation t c) v h = relation
  check_type_compat→Fits n (FieldType.array t) v h = array
  check_type_compat→Fits n (FieldType.composite fs) v h = composite
  check_type_compat→Fits n (FieldType.file c) v h = file
  check_type_compat→Fits n _ _ h = cc

  pub Fits→check_type_compat :
      (n : String) {t : FieldType} {v : DynamicValue X} → Fits t v → check_type_compat n t v ≡ []
  unfolding check_type_compat
  Fits→check_type_compat n null = refl
  Fits→check_type_compat n json = ground arith
  Fits→check_type_compat n relation = ground arith
  Fits→check_type_compat n array = ground arith
  Fits→check_type_compat n composite = ground arith
  Fits→check_type_compat n file = ground arith
  Fits→check_type_compat n _ = refl

pub append-eq-nil {ℓ} : {A : Type ℓ} (xs ys : List A) → (xs ++ ys ≡ []) ↔ ((xs ≡ []) × (ys ≡ []))
append-eq-nil [] ys = (λ h. (refl, h), λ h. h.1)
append-eq-nil (x ∷ xs) ys = (λ h. cc, λ h. cc (h.0))

pub for_each-eq-nil {ℓ} :
    {A B : Type ℓ} (f : A → List B) (xs : List A) → (for_each f xs ≡ []) ↔ All (λ x. f x ≡ []) xs
for_each-eq-nil f [] = (λ h. tt, λ h. refl)
for_each-eq-nil f (x ∷ xs) = (
  λ h. let e = (append-eq-nil (f x) (for_each f xs)).0 h in (e.0, (for_each-eq-nil f xs).0 e.1),
  λ h. (append-eq-nil (f x) (for_each f xs)).1 (h.0, (for_each-eq-nil f xs).1 h.1),
)

module _ {X : Externals} (schema : SchemaDefinition) where
  -- A comparison names a field of the schema, and a value that fits it unless the path goes on into a
  -- related schema.
  abbrev pub GoodComparison : FieldPath → DynamicValue X → Type 0
  GoodComparison path v =
      (f : FieldDefinition) × (field schema (root path) ≡ some f)
      × (is_simple path ≡ true → Fits f.field_type v)

  abbrev pub GoodSet : FieldPath → List (DynamicValue X) → Type 0
  GoodSet path vs =
      (f : FieldDefinition) × (field schema (root path) ≡ some f)
      × (vs ≢ [])
      × (is_simple path ≡ true → All (Fits f.field_type) vs)

pub data TextLike : FieldType → Type 0 where
  text : {c : TextConstraints} → TextLike (FieldType.text c)
  rich_text : TextLike FieldType.rich_text
  enum : {vs : EnumVariants} → TextLike (FieldType.enum vs)

abbrev pub GoodMatch : SchemaDefinition → FieldPath → Type 0
GoodMatch schema path =
    (f : FieldDefinition) × (field schema (root path) ≡ some f)
    × (is_simple path ≡ true → TextLike f.field_type)

pub is_text_like→TextLike : (t : FieldType) → is_text_like t ≡ true → TextLike t
unfolding is_text_like
is_text_like→TextLike (FieldType.text c) h = text
is_text_like→TextLike FieldType.rich_text h = rich_text
is_text_like→TextLike (FieldType.enum vs) h = enum
is_text_like→TextLike _ h = cc

pub TextLike→is_text_like : {t : FieldType} → TextLike t → is_text_like t ≡ true
unfolding is_text_like
TextLike→is_text_like text = refl
TextLike→is_text_like _ = refl

-- What a filter has to be: every leaf is good.
unfoldable mutual
  pub GoodFilter : {X : Externals} → SchemaDefinition → Filter X → Type 0
  GoodFilter s (eq path v) = GoodComparison s path v
  GoodFilter s (ne path v) = GoodComparison s path v
  GoodFilter s (gt path v) = GoodComparison s path v
  GoodFilter s (gte path v) = GoodComparison s path v
  GoodFilter s (lt path v) = GoodComparison s path v
  GoodFilter s (lte path v) = GoodComparison s path v
  GoodFilter s (contains path t) = GoodMatch s path
  GoodFilter s (starts_with path t) = GoodMatch s path
  GoodFilter s (in_set path vs) = GoodSet s path vs
  GoodFilter s (and fs) = GoodFilters s fs
  GoodFilter s (or fs) = GoodFilters s fs
  GoodFilter s (negate f) = GoodFilter s f

  pub GoodFilters : {X : Externals} → SchemaDefinition → Filters X → Type 0
  GoodFilters s no_filters = Unit
  GoodFilters s (filter f fs) = GoodFilter s f × GoodFilters s fs
