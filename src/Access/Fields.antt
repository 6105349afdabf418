-- ===== src/Access/Fields.antt =====
-- crates/schema-forge-acton/src/access.rs: `filter_entity_fields`.
use schemaforge.Prelude.{
  ◌++◌, All, find, ◌⊎◌, ◌≢◌, is_some, String, Bool, true, false, not, Option, none, some, List, [],
  ◌∷◌, ◌==◌, map, keep, any, ◌&&◌, Result, ok, err, ◌≡◌, refl, arith, ap, ◌∙◌, eq_iff,
  if◌then◌else◌, Bool-cases, inl, inr,
}
use schemaforge.Core.FieldType.{FieldAnnotation}
use schemaforge.Core.Schema.{
  FieldDefinition, SchemaDefinition, field, find_field_access, matches_field_access,
}
use schemaforge.Core.Value.{Externals}
use schemaforge.Access.Engine.{Engine, Entity, FieldMap, FieldDirection, get_field}

-- `BTreeMap::remove`
unfoldable pub remove_key : {X : Externals} → String → FieldMap X → FieldMap X
remove_key name fields = keep (λ e. not (e.0 == name)) fields

-- `Ok(d) => !d.is_allow()`, `Err(_) => true`
abbrev pub denies : Result Bool String → Bool
denies (ok b) = not b
denies (err e) = true

abbrev pub denied_if_annotated : Option FieldAnnotation → Result Bool String → Bool
denied_if_annotated none r = false
denied_if_annotated (some a) r = denies r

abbrev pub denied_if_known : Option FieldDefinition → Result Bool String → Bool
denied_if_known none r = false
denied_if_known (some f) r = denied_if_annotated (find_field_access f) r

unfoldable pub remove_keys : {X : Externals} → List String → FieldMap X → FieldMap X
remove_keys [] fields = fields
remove_keys (name ∷ names) fields = remove_keys names (remove_key name fields)

module _ {X : Externals} (G : Engine X) (store : G.Store) (schema : SchemaDefinition) where
  -- The test on a field's name in the filter over the keys.
  unfoldable pub is_denied : Entity X → Option G.Claims → FieldDirection → String → Bool
  is_denied entity claims direction name =
      denied_if_known (field schema name)
        (G.authorize_field store claims schema entity name direction)

  unfoldable pub fields_to_remove : Entity X → Option G.Claims → FieldDirection → List String
  fields_to_remove entity claims direction =
      keep (is_denied entity claims direction) (map (λ e. e.0) entity.fields)

  unfoldable pub filter_entity_fields : Entity X → Option G.Claims → FieldDirection → Entity X
  filter_entity_fields entity none direction = entity
  filter_entity_fields entity (some c) direction = record entity {
    fields = remove_keys (fields_to_remove entity (some c) direction) entity.fields;
  }

get_field-remove_key :
    {X : Externals} (n m : String) (fields : FieldMap X)
    → get_field n (remove_key m fields) ≡ (if m == n then none else get_field n fields)
unfolding get_field remove_key
get_field-remove_key n m [] = ground arith
get_field-remove_key n m ((k, v) ∷ fields) =
    ground (arith, get_field-remove_key n m fields, eq_iff k m, eq_iff k n, eq_iff m n)

get_field-remove_keys :
    {X : Externals} (n : String) (names : List String) (fields : FieldMap X)
    → get_field n (remove_keys names fields)
      ≡ (if any (λ m. m == n) names then none else get_field n fields)
unfolding remove_keys
get_field-remove_keys n [] fields = refl
get_field-remove_keys n (m ∷ names) fields =
    ground
      (arith, get_field-remove_keys n names (remove_key m fields), get_field-remove_key n m fields)

-- A name is among those kept exactly if it passes the test and is a key.
any-keep :
    (p : String → Bool) (n : String) (names : List String)
    → any (λ m. m == n) (keep p names) ≡ (p n && any (λ m. m == n) names)
any-keep p n [] = ground arith
any-keep p n (m ∷ names) = elim (Bool-cases (m == n)) [
  | inl e ↦ let q = ap p ((eq_iff m n).0 e) in ground (arith, e, q, any-keep p n names)
  | inr e ↦ ground (arith, any-keep p n names)
]

get_field-absent :
    {X : Externals} (n : String) (fields : FieldMap X)
    → any (λ m. m == n) (map (λ e. e.0) fields) ≡ false
    → get_field n fields ≡ none
unfolding get_field
get_field-absent n [] h = refl
get_field-absent n ((k, v) ∷ fields) h = ground (arith, get_field-absent n fields)

if-absent :
    {A : Type 0} (d h : Bool) (o : Option A)
    → (h ≡ false → o ≡ none)
    → (if d && h then none else o) ≡ (if d then none else o)
if-absent true true o k = refl
if-absent true false o k = k refl
if-absent false h o k = refl

-- An annotation other than `@field_access`.
abbrev pub IsOther : FieldAnnotation → Type 0
IsOther (FieldAnnotation.field_access read write) = ⊥
IsOther _ = Unit

find-IsOther : (as' : List FieldAnnotation) → All IsOther as' → find matches_field_access as' ≡ none
find-IsOther [] h = refl
find-IsOther (FieldAnnotation.field_access read write ∷ as') h = absurd h.0
find-IsOther (a ∷ as') h = find-IsOther as' h.1

find-field_access :
    (before after : List FieldAnnotation) (read write : List String)
    → is_some
        (find matches_field_access (before ++ FieldAnnotation.field_access read write ∷ after))
      ≡ true
find-field_access [] after read write = refl
find-field_access (a ∷ before) after read write =
    ground (arith, find-field_access before after read write)

module _ {X : Externals} (G : Engine X) (store : G.Store) (schema : SchemaDefinition) where
  -- The field is free for everyone, or the engine answers, without an error, that it is allowed.
  abbrev pub Shown : Entity X → G.Claims → FieldDirection → String → Type 0
  Shown entity c direction n =
      (field schema n ≡ none)
      ⊎ ((f : FieldDefinition) × (field schema n ≡ some f) × All IsOther f.annotations)
      ⊎ (G.authorize_field store (some c) schema entity n direction ≡ ok true)

  -- Otherwise: the field has the annotation, and the engine denies it or fails.
  abbrev pub Withheld : Entity X → G.Claims → FieldDirection → String → Type 0
  Withheld entity c direction n =
      ((f : FieldDefinition) × (before : List FieldAnnotation) × (after : List FieldAnnotation)
        × (read : List String) × (write : List String) × (field schema n ≡ some f)
        × (f.annotations ≡ before ++ FieldAnnotation.field_access read write ∷ after))
      × (G.authorize_field store (some c) schema entity n direction ≢ ok true)

  is_denied-Shown :
      (entity : Entity X) (c : G.Claims) (direction : FieldDirection) (n : String)
      → Shown entity c direction n
      → is_denied G store schema entity (some c) direction n ≡ false
  unfolding is_denied find_field_access
  is_denied-Shown entity c direction n (inl h) = rw h refl
  is_denied-Shown entity c direction n (inr (inl (f, h, a))) =
      rw (h, find-IsOther f.annotations a) refl
  is_denied-Shown entity c direction n (inr (inr h)) = rw h (allowed (field schema n))
    where
      allowed : (o : Option FieldDefinition) → denied_if_known o (ok true) ≡ false
      allowed o = ground arith

  denies-other : (r : Result Bool String) → r ≢ ok true → denies r ≡ true
  denies-other (ok true) h = absurd (h refl)
  denies-other (ok false) h = refl
  denies-other (err e) h = refl

  is_denied-Withheld :
      (entity : Entity X) (c : G.Claims) (direction : FieldDirection) (n : String)
      → Withheld entity c direction n
      → is_denied G store schema entity (some c) direction n ≡ true
  unfolding is_denied find_field_access
  is_denied-Withheld entity c direction n ((f, before, after, read, write, h, k), d) =
      rw (h, k) (annotated _ _ (find-field_access before after read write) (denies-other _ d))
    where
      annotated :
          (o : Option FieldAnnotation) (r : Result Bool String)
          → is_some o ≡ true
          → denies r ≡ true
          → denied_if_annotated o r ≡ true
      annotated none r h d = cc h
      annotated (some a) r h d = d

  filtered :
      (entity : Entity X) (c : G.Claims) (direction : FieldDirection) (n : String)
      → get_field n (filter_entity_fields G store schema entity (some c) direction).fields ≡ (
          if is_denied G store schema entity (some c) direction n
          then none
          else get_field n entity.fields)
  unfolding filter_entity_fields fields_to_remove
  filtered entity c direction n =
      let denied = is_denied G store schema entity (some c) direction in
      let keys = map (λ e. e.0) entity.fields in
      get_field-remove_keys n (keep denied keys) entity.fields
      ∙ ap (λ b. if b then none else get_field n entity.fields) (any-keep denied n keys)
      ∙ if-absent (denied n) _ _ (get_field-absent n entity.fields)

  -- To an authenticated caller the filter leaves a field of the entity with its value where it is not in
  -- the schema, or has no `@field_access` annotation, or the engine allows it; it removes a field that has
  -- the annotation where the engine denies it or fails. Without claims it leaves the entity as it is.
  pub get_field-filter_entity_fields :
      (entity : Entity X) (c : G.Claims) (direction : FieldDirection) (n : String)
      → (Shown entity c direction n
          → get_field n (filter_entity_fields G store schema entity (some c) direction).fields
            ≡ get_field n entity.fields)
        × (Withheld entity c direction n
            → get_field n (filter_entity_fields G store schema entity (some c) direction).fields
              ≡ none)
        × (filter_entity_fields G store schema entity none direction ≡ entity)
  unfolding filter_entity_fields
  get_field-filter_entity_fields entity c direction n = (
    λ s. filtered entity c direction n ∙ rw (is_denied-Shown entity c direction n s) refl,
    λ w. filtered entity c direction n ∙ rw (is_denied-Withheld entity c direction n w) refl,
    refl,
  )
