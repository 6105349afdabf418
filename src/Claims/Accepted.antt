-- ===== src/Claims/Accepted.antt =====
-- What a mapping projects at login is what it accepts from the token.
use schemaforge.Prelude.{sym}
use mathlib.Core.Path.{subst}
use schemaforge.Prelude.{String, true, some, List, [], ◌∷◌, ok, ◌≡◌, refl}
use schemaforge.Core.Constraints.{Cardinality}
use schemaforge.Core.FieldType.{FieldType}
use schemaforge.Core.Value.{Externals, EntityId, DynamicValue, Values, no_values, value}
use schemaforge.Claims.Json.{
  Json, Items, no_items, item, PrincipalClaimType, all_strings, json_matches_type,
}
use schemaforge.Claims.Projection.{
  UserFieldProjection, Projected, resolve_projection, text_items, ref_items, id_items,
  project_value,
}
use schemaforge.Claims.Built.{expression_of-ok}
use schemaforge.Claims.Config.{PrincipalClaimMapping}
use schemaforge.Claims.Extract.{Expressions, build_expression}

-- What a projection gives.
abbrev pub result_type : UserFieldProjection → PrincipalClaimType
result_type UserFieldProjection.text_to_string = PrincipalClaimType.string_type
result_type UserFieldProjection.integer_to_long = PrincipalClaimType.long_type
result_type UserFieldProjection.boolean_to_bool = PrincipalClaimType.bool_type
result_type UserFieldProjection.text_array_to_set_of_string = PrincipalClaimType.set_of_string
result_type UserFieldProjection.relation_one_to_string = PrincipalClaimType.string_type
result_type UserFieldProjection.relation_many_to_set_of_string = PrincipalClaimType.set_of_string

-- The types of field that a projection is for.
abbrev Suits : FieldType → UserFieldProjection → Type 0
Suits (FieldType.text c) UserFieldProjection.text_to_string = Unit
Suits (FieldType.integer c) UserFieldProjection.integer_to_long = Unit
Suits FieldType.boolean UserFieldProjection.boolean_to_bool = Unit
Suits (FieldType.array (FieldType.text c)) UserFieldProjection.text_array_to_set_of_string = Unit
Suits (FieldType.array (FieldType.relation target Cardinality.one))
      UserFieldProjection.relation_many_to_set_of_string =
    Unit
Suits (FieldType.relation target Cardinality.one) UserFieldProjection.relation_one_to_string = Unit
Suits (FieldType.relation target Cardinality.many)
      UserFieldProjection.relation_many_to_set_of_string =
    Unit
Suits _ _ = ⊥

suited :
    (t : FieldType) (p q : UserFieldProjection)
    → Suits t q
    → ◌≡◌ {A = Projected} (ok q) (ok p)
    → Suits t p × (result_type q ≡ result_type p)
suited t p q s h = (subst (Suits t) (cc h) s, cc h)

resolve-Suits :
    (claim name : String) (t : FieldType) (declared : PrincipalClaimType) (p : UserFieldProjection)
    → resolve_projection claim name t declared ≡ ok p
    → Suits t p × (declared ≡ result_type p)
unfolding resolve_projection
resolve-Suits claim name (FieldType.text c) PrincipalClaimType.string_type p h =
    suited (FieldType.text c) p UserFieldProjection.text_to_string tt h
resolve-Suits claim name (FieldType.integer c) PrincipalClaimType.long_type p h =
    suited (FieldType.integer c) p UserFieldProjection.integer_to_long tt h
resolve-Suits claim name FieldType.boolean PrincipalClaimType.bool_type p h =
    suited FieldType.boolean p UserFieldProjection.boolean_to_bool tt h
resolve-Suits claim name (FieldType.array (FieldType.text c)) PrincipalClaimType.set_of_string p h =
    suited (FieldType.array (FieldType.text c)) p UserFieldProjection.text_array_to_set_of_string tt
      h
resolve-Suits claim name (FieldType.array (FieldType.relation target Cardinality.one))
      PrincipalClaimType.set_of_string p h =
    suited (FieldType.array (FieldType.relation target Cardinality.one)) p
      UserFieldProjection.relation_many_to_set_of_string tt h
resolve-Suits claim name (FieldType.relation target Cardinality.one) PrincipalClaimType.string_type
      p h =
    suited (FieldType.relation target Cardinality.one) p UserFieldProjection.relation_one_to_string
      tt h
resolve-Suits claim name (FieldType.relation target Cardinality.many)
      PrincipalClaimType.set_of_string p h =
    suited (FieldType.relation target Cardinality.many) p
      UserFieldProjection.relation_many_to_set_of_string tt h
resolve-Suits claim name (FieldType.array _) PrincipalClaimType.set_of_string p h = cc h
resolve-Suits claim name (FieldType.array _) PrincipalClaimType.string_type p h = cc h
resolve-Suits claim name (FieldType.array _) PrincipalClaimType.long_type p h = cc h
resolve-Suits claim name (FieldType.array _) PrincipalClaimType.bool_type p h = cc h
resolve-Suits claim name _ _ p h = cc h

module _ {X : Externals} where
  abbrev pub AllTexts : Values X → Type 0
  AllTexts no_values = Unit
  AllTexts (value (DynamicValue.text s) vs) = AllTexts vs
  AllTexts (value _ vs) = ⊥

  abbrev pub AllRefs : Values X → Type 0
  AllRefs no_values = Unit
  AllRefs (value (DynamicValue.ref id) vs) = AllRefs vs
  AllRefs (value _ vs) = ⊥

  -- The values that a field of a type with a projection holds where it is not null; an array of
  -- relations comes back from the database in either form.
  abbrev pub Holds : FieldType → DynamicValue X → Type 0
  Holds (FieldType.text c) (DynamicValue.text s) = Unit
  Holds (FieldType.integer c) (DynamicValue.integer z) = Unit
  Holds FieldType.boolean (DynamicValue.boolean b) = Unit
  Holds (FieldType.array (FieldType.text c)) (DynamicValue.array vs) = AllTexts vs
  Holds (FieldType.array (FieldType.relation target Cardinality.one)) (DynamicValue.array vs) =
      AllRefs vs
  Holds (FieldType.array (FieldType.relation target Cardinality.one)) (DynamicValue.ref_array ids) =
      Unit
  Holds (FieldType.relation target Cardinality.one) (DynamicValue.ref id) = Unit
  Holds (FieldType.relation target Cardinality.many) (DynamicValue.array vs) = AllRefs vs
  Holds (FieldType.relation target Cardinality.many) (DynamicValue.ref_array ids) = Unit
  Holds _ _ = ⊥

  text_items-some :
      (vs : Values X)
      → AllTexts vs
      → (items : Items) × (text_items vs ≡ some items) × (all_strings items ≡ true)
  unfolding text_items all_strings
  text_items-some no_values h = (no_items, refl, refl)
  text_items-some (value (DynamicValue.text s) vs) h =
      let (items, e, a) = text_items-some vs h in (item (Json.string s) items, rw e refl, a)
  text_items-some (value _ vs) h = absurd h

  ref_items-some :
      (vs : Values X)
      → AllRefs vs
      → (items : Items) × (ref_items vs ≡ some items) × (all_strings items ≡ true)
  unfolding ref_items all_strings
  ref_items-some no_values h = (no_items, refl, refl)
  ref_items-some (value (DynamicValue.ref id) vs) h =
      let (items, e, a) = ref_items-some vs h in (item (Json.string id) items, rw e refl, a)
  ref_items-some (value _ vs) h = absurd h

all_strings-id_items : (ids : List EntityId) → all_strings (id_items ids) ≡ true
unfolding all_strings
all_strings-id_items [] = refl
all_strings-id_items (id ∷ ids) = all_strings-id_items ids

module _ {X : Externals} where
  -- A value of the field's type is projected to a value of the projection's type.
  project_value-typed :
      (t : FieldType) (p : UserFieldProjection) (v : DynamicValue X)
      → Suits t p
      → Holds t v
      → (j : Json) × (project_value p v ≡ some j) × (json_matches_type j (result_type p) ≡ true)
  unfolding project_value json_matches_type
  project_value-typed (FieldType.text c) UserFieldProjection.text_to_string (DynamicValue.text s) a
        h =
      (_, refl, refl)
  project_value-typed (FieldType.integer c) UserFieldProjection.integer_to_long
        (DynamicValue.integer z) a h =
      (_, refl, refl)
  project_value-typed FieldType.boolean UserFieldProjection.boolean_to_bool (DynamicValue.boolean b)
        a h =
      (_, refl, refl)
  project_value-typed (FieldType.array (FieldType.text c))
        UserFieldProjection.text_array_to_set_of_string (DynamicValue.array vs) a h =
      let (items, e, b) = text_items-some vs h in (Json.array items, rw e refl, b)
  project_value-typed (FieldType.array (FieldType.relation target Cardinality.one))
        UserFieldProjection.relation_many_to_set_of_string (DynamicValue.array vs) a h =
      let (items, e, b) = ref_items-some vs h in (Json.array items, rw e refl, b)
  project_value-typed (FieldType.array (FieldType.relation target Cardinality.one))
        UserFieldProjection.relation_many_to_set_of_string (DynamicValue.ref_array ids) a h =
      (_, refl, all_strings-id_items ids)
  project_value-typed (FieldType.relation target Cardinality.one)
        UserFieldProjection.relation_one_to_string (DynamicValue.ref id) a h =
      (_, refl, refl)
  project_value-typed (FieldType.relation target Cardinality.many)
        UserFieldProjection.relation_many_to_set_of_string (DynamicValue.array vs) a h =
      let (items, e, b) = ref_items-some vs h in (Json.array items, rw e refl, b)
  project_value-typed (FieldType.relation target Cardinality.many)
        UserFieldProjection.relation_many_to_set_of_string (DynamicValue.ref_array ids) a h =
      (_, refl, all_strings-id_items ids)
  project_value-typed _ _ _ a h = search

-- Where a mapping's source is resolved to a projection, a value of the source field's type that is not
-- null is projected at login to a claim, and this claim is accepted as an attribute of the principal:
-- the two sides of a mapping agree.
pub build_expression-project_value :
    {X : Externals} (E : Expressions) (m : PrincipalClaimMapping) (name : String) (t : FieldType)
    (p : UserFieldProjection) (v : DynamicValue X)
    → resolve_projection m.attribute_name name t m.claim_type ≡ ok p
    → Holds t v
    → (j : Json) × (e : E.Expr) × (project_value p v ≡ some j) × (build_expression E m j ≡ ok e)
unfolding build_expression
build_expression-project_value E m name t p v h c =
    let (suits, same) = resolve-Suits m.attribute_name name t m.claim_type p h in
    let (j, projected, typed) = project_value-typed t p v suits c in
    let (e, built) =
      expression_of-ok E m m.claim_type j
        (subst (λ d. json_matches_type j d ≡ true) (sym same) typed) in
    (j, e, projected, built)
