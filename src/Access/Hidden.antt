-- ===== src/Access/Hidden.antt =====
-- crates/schema-forge-backend/src/entity.rs: `Entity::strip_hidden`.
use schemaforge.Prelude.{
  List, All, ◌++◌, ◌∙◌, String, Bool, true, false, not, Option, none, some, [], ◌∷◌, ◌==◌, any,
  keep, ap, ◌≡◌, refl, arith, eq_iff, if◌then◌else◌, Bool-cases, inl, inr,
}
use schemaforge.Core.FieldType.{FieldAnnotation}
use schemaforge.Core.Schema.{FieldDefinition, SchemaDefinition, field}
use schemaforge.Core.Value.{Externals}
use schemaforge.Access.Engine.{Entity, FieldMap, get_field}

abbrev matches_hidden : FieldAnnotation → Bool
matches_hidden FieldAnnotation.hidden = true
matches_hidden _ = false

unfoldable pub is_hidden : FieldDefinition → Bool
is_hidden f = any matches_hidden f.annotations

abbrev pub is_retained : Option FieldDefinition → Bool
is_retained none = true
is_retained (some f) = not (is_hidden f)

unfoldable pub strip_hidden : {X : Externals} → SchemaDefinition → Entity X → Entity X
strip_hidden schema entity = record entity {
  fields = keep (λ e. is_retained (field schema e.0)) entity.fields;
}

get_field-keep :
    {X : Externals} (p : String → Bool) (n : String) (fields : FieldMap X)
    → get_field n (keep (λ e. p e.0) fields) ≡ (if p n then get_field n fields else none)
unfolding get_field
get_field-keep p n [] = ground arith
get_field-keep p n ((k, v) ∷ fields) = elim (Bool-cases (k == n)) [
  | inl e ↦ let q = ap p ((eq_iff k n).0 e) in ground (arith, e, q, get_field-keep p n fields)
  | inr e ↦ ground (arith, e, get_field-keep p n fields)
]

any-hidden :
    (before after : List FieldAnnotation)
    → any matches_hidden (before ++ FieldAnnotation.hidden ∷ after) ≡ true
any-hidden [] after = refl
any-hidden (a ∷ before) after = ground (arith, any-hidden before after)

-- An annotation other than `@hidden`.
abbrev pub IsShowing : FieldAnnotation → Type 0
IsShowing FieldAnnotation.hidden = ⊥
IsShowing _ = Unit

any-IsShowing : (as' : List FieldAnnotation) → All IsShowing as' → any matches_hidden as' ≡ false
any-IsShowing [] h = refl
any-IsShowing (FieldAnnotation.hidden ∷ as') h = absurd h.0
any-IsShowing (a ∷ as') h = any-IsShowing as' h.1

-- `strip_hidden` removes each field that has the `@hidden` annotation in the schema, and leaves, with its
-- value, each field that is not in the schema or has no such annotation.
pub get_field-strip_hidden :
    {X : Externals} (schema : SchemaDefinition) (entity : Entity X) (n : String)
    → ((f : FieldDefinition) (before after : List FieldAnnotation)
        → field schema n ≡ some f
        → f.annotations ≡ before ++ FieldAnnotation.hidden ∷ after
        → get_field n (strip_hidden schema entity).fields ≡ none)
      × ((f : FieldDefinition)
          → field schema n ≡ some f
          → All IsShowing f.annotations
          → get_field n (strip_hidden schema entity).fields ≡ get_field n entity.fields)
      × (field schema n ≡ none
          → get_field n (strip_hidden schema entity).fields ≡ get_field n entity.fields)
unfolding strip_hidden is_hidden
get_field-strip_hidden schema entity n =
    let kept = get_field-keep (λ k. is_retained (field schema k)) n entity.fields in
    (
      λ f before after o h. kept ∙ rw (o, h, any-hidden before after) refl,
      λ f o h. kept ∙ rw (o, any-IsShowing f.annotations h) refl,
      λ o. kept ∙ rw o refl,
    )
