-- ===== src/Core/Schema.antt =====
-- crates/schema-forge-core/src/types: field_definition.rs and schema_definition.rs.
pub mod Unique
use schemaforge.Prelude.{
  String, Bool, true, false, Option, none, some, List, [], ◌∷◌, ◌==◌, any, find, is_some,
  if◌then◌else◌, Result, ok, err, ◌>>=◌,
}
use schemaforge.Core.Error.{SchemaError, empty_fields, duplicate_field_name, duplicate_annotation}
use schemaforge.Core.Names.{FieldName, SchemaName}
use schemaforge.Core.Constraints.{FieldModifier, required, indexed, default}
use schemaforge.Core.FieldType.{FieldType, FieldAnnotation, field_access, owner, hidden}
use schemaforge.Core.Annotation.{Annotation, system, kind}
use schemaforge.Core.Annotation

pub record FieldDefinition : Type 0 where
  pub name : FieldName
  pub field_type : FieldType
  pub modifiers : List FieldModifier
  pub annotations : List FieldAnnotation
  pub derived_from : Option FieldName

abbrev pub field_new : FieldName → FieldType → FieldDefinition
field_new name field_type = record {
  name = name;
  field_type = field_type;
  modifiers = [];
  annotations = [];
  derived_from = none;
}

abbrev pub is_derived : FieldDefinition → Bool
is_derived f = is_some f.derived_from

abbrev matches_required : FieldModifier → Bool
matches_required required = true
matches_required _ = false

abbrev matches_indexed : FieldModifier → Bool
matches_indexed indexed = true
matches_indexed _ = false

unfoldable pub is_required : FieldDefinition → Bool
is_required f = any matches_required f.modifiers

unfoldable pub is_indexed : FieldDefinition → Bool
is_indexed f = any matches_indexed f.modifiers

abbrev pub matches_field_access : FieldAnnotation → Bool
matches_field_access (field_access r w) = true
matches_field_access _ = false

unfoldable pub find_field_access : FieldDefinition → Option FieldAnnotation
find_field_access f = find matches_field_access f.annotations

-- A `SchemaId` is its text form.
pub record SchemaDefinition : Type 0 where
  pub id : String
  pub name : SchemaName
  pub fields : List FieldDefinition
  pub annotations : List Annotation

-- The loop that fills a `HashSet` of keys, up to the first element whose key is in it.
unfoldable pub find_duplicate : {A : Type 0} → (A → String) → List String → List A → Option A
find_duplicate key seen [] = none
find_duplicate key seen (x ∷ xs) =
    let rest = find_duplicate key (key x ∷ seen) xs in
    if any (λ s. s == key x) seen then some x else rest

abbrev pub field_key : FieldDefinition → String
field_key f = f.name

abbrev pub name_error : Option FieldDefinition → Result (Unit {0}) SchemaError
name_error none = ok tt
name_error (some f) = err (duplicate_field_name f.name)

abbrev pub kind_error : Option Annotation → Result (Unit {0}) SchemaError
kind_error none = ok tt
kind_error (some a) = err (duplicate_annotation (kind a))

unfoldable pub schema_new :
    String
    → SchemaName
    → List FieldDefinition
    → List Annotation
    → Result SchemaDefinition SchemaError
schema_new id name [] annotations = err empty_fields
schema_new id name (f ∷ fs) annotations = name_error (find_duplicate field_key [] (f ∷ fs)) >>= λ _.
    kind_error (find_duplicate kind [] annotations) >>= λ _.
    ok (record { id = id; name = name; fields = f ∷ fs; annotations = annotations })

abbrev pub find_field : String → List FieldDefinition → Option FieldDefinition
find_field name fields = find (λ f. f.name == name) fields

-- `SchemaDefinition::field`
unfoldable pub field : SchemaDefinition → String → Option FieldDefinition
field s name = find_field name s.fields

abbrev pub matches_system : Annotation → Bool
matches_system system = true
matches_system _ = false

unfoldable pub is_system : SchemaDefinition → Bool
is_system s = any matches_system s.annotations
