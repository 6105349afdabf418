-- ===== src/Core/FieldType.antt =====
-- crates/schema-forge-core/src/types: field_type.rs, and the annotations and modifiers of a field.
use mathlib.Core.Bool.{false≢true}
use native.Mathlib.Decide.{ℕ_discrete}
use schemaforge.Prelude.{String, Option, List, ◌==◌, sym, ◌∙◌, eq_iff, inl, inr, Bool-cases}
use schemaforge.Core.Names.{FieldName, SchemaName}
use schemaforge.Core.Constraints.{
  TextConstraints, IntegerConstraints, FloatConstraints, FileConstraints, EnumVariants, Cardinality,
  FieldModifier, DefaultValue,
}
use schemaforge.Core.Tokens.Display.{WidgetType, FormatType, EnumColor, ListHint}

-- `@enum_colors` holds its `BTreeMap` as the list of its entries in key order.
pub data FieldAnnotation : Type 0 where
  field_access : List String → List String → FieldAnnotation
  owner : FieldAnnotation
  widget : WidgetType → FieldAnnotation
  kanban_column : FieldAnnotation
  format : FormatType → FieldAnnotation
  enum_colors : List (String × EnumColor) → FieldAnnotation
  list : ListHint → FieldAnnotation
  hidden : FieldAnnotation

-- `Fields` is the `Vec<FieldDefinition>` inside a composite: a name, a type, modifiers, annotations
-- and the source of a derived field.
mutual
  pub data FieldType : Type 0 where
    text : TextConstraints → FieldType
    rich_text : FieldType
    integer : IntegerConstraints → FieldType
    float : FloatConstraints → FieldType
    boolean : FieldType
    date_time : FieldType
    enum : EnumVariants → FieldType
    json : FieldType
    relation : SchemaName → Cardinality → FieldType
    array : FieldType → FieldType
    composite : Fields → FieldType
    file : FileConstraints → FieldType

  pub data Fields : Type 0 where
    end : Fields
    field :
        FieldName
        → FieldType
        → List FieldModifier
        → List FieldAnnotation
        → Option FieldName
        → Fields
        → Fields

-- The derived `PartialEq`: equality is decided from the parts.
unfoldable pub String-discrete : Discrete String
String-discrete a b = elim (Bool-cases (a == b)) [
  | inl e ↦ yes ((eq_iff a b).0 e)
  | inr e ↦ no (λ p. false≢true (sym e ∙ (eq_iff a b).1 p))
]

unfoldable pub FieldType-discrete : Discrete FieldType
unfolding String-discrete ℕ_discrete
FieldType-discrete = hlevel (ℕ_discrete, String-discrete)

unfoldable pub DefaultValue-discrete : Discrete DefaultValue
unfolding String-discrete ℕ_discrete
DefaultValue-discrete = hlevel (ℕ_discrete, String-discrete)
