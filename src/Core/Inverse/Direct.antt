-- ===== src/Core/Inverse/Direct.antt =====
-- The pairing of inverse_relations.rs said directly: for each collection field, the foreign keys of
-- its target schema that point back.
use schemaforge.Prelude.{
  eq_iff, ℕ, String, Bool, true, false, Option, none, some, List, [], ◌∷◌, ◌++◌, map, ◌==◌,
  if◌then◌else◌, ◌≡◌, refl, sym, ap, ◌∙◌, arith, Result, ok, err, ◌>>=◌, keep, for_each, Bool-cases,
  inl, inr, append_assoc, append-nil, suc,
}
use schemaforge.Core.Names.{SchemaName}
use schemaforge.Core.Schema.{FieldDefinition, SchemaDefinition}
use schemaforge.Core.Inverse.{
  Index, ForeignKey, InverseRelationError, ambiguous, push_fk, get_fks, one_target, many_target,
  push_one, derive_from, with_fields, index_fields, index_schemas,
}

module _ {ℓ} {A B E : Type ℓ} where
  abbrev pub traverse : (A → Result B E) → List A → Result (List B) E
  traverse f [] = ok []
  traverse f (x ∷ xs) = f x >>= λ y. traverse f xs >>= λ ys. ok (y ∷ ys)

-- The field's name, where the field is a foreign key to `parent`.
abbrev pub back_ref : String → Option SchemaName → String → List String
back_ref parent none name = []
back_ref parent (some target) name = if target == parent then name ∷ [] else []

abbrev pub back_refs_of : String → List FieldDefinition → List String
back_refs_of parent fs = for_each (λ f. back_ref parent (one_target f.field_type) f.name) fs

-- The foreign keys to `parent` of the schemas named `child`.
unfoldable pub back_refs : String → String → List SchemaDefinition → List String
back_refs parent child ss =
    for_each (λ s. if s.name == child then back_refs_of parent s.fields else []) ss

abbrev pub resolve :
    String → String → FieldDefinition → List String → Result FieldDefinition InverseRelationError
resolve parent target f [] = ok f
resolve parent target f (fk ∷ []) = ok (derive_from fk f)
resolve parent target f many = err (ambiguous parent f.name target many)

abbrev pub direct_target :
    List SchemaDefinition
    → String
    → FieldDefinition
    → Option SchemaName
    → Result FieldDefinition InverseRelationError
direct_target all parent f none = ok f
direct_target all parent f (some target) = resolve parent target f (back_refs parent target all)

abbrev pub direct_fields :
    List SchemaDefinition → SchemaDefinition → Result SchemaDefinition InverseRelationError
direct_fields all s =
    traverse (λ f. direct_target all s.name f (many_target f.field_type)) s.fields >>= λ fs.
    ok (with_fields s fs)

unfoldable pub direct : List SchemaDefinition → Result (List SchemaDefinition) InverseRelationError
direct all = traverse (direct_fields all) all

abbrev pub held : Option (List ForeignKey) → List ForeignKey
held none = []
held (some fks) = fks

abbrev pub named : String → List ForeignKey → List String
named child fks = map (λ fk. fk.fk_field) (keep (λ fk. fk.owner_name == child) fks)

-- The foreign keys of `child` to `parent` that an index holds.
abbrev pub indexed_refs : String → String → Index → List String
indexed_refs parent child index = named child (held (get_fks parent index))

named-append :
    (child : String) (xs ys : List ForeignKey)
    → named child (xs ++ ys) ≡ (named child xs ++ named child ys)
named-append child [] ys = refl
named-append child (x ∷ xs) ys = ground (arith, named-append child xs ys)

held-push_fk :
    (p t : String) (fk : ForeignKey) (index : Index)
    → held (get_fks p (push_fk t fk index))
      ≡ (held (get_fks p index) ++ (if t == p then fk ∷ [] else []))
unfolding push_fk get_fks
held-push_fk p t fk [] = ground arith
held-push_fk p t fk ((u, fks) ∷ rest) = elim (Bool-cases (u == t)) [
  | inl e ↦
      rw (e, ap (λ z. z == p) ((eq_iff u t).0 e))
        (elim (Bool-cases (t == p)) [ inl q ↦ rw q refl | inr q ↦ rw (q, append-nil) refl ])
  | inr e ↦ rw e (elim (Bool-cases (u == p)) [
    | inl q ↦ rw (q, other e q, append-nil) refl
    | inr q ↦ rw q (held-push_fk p t fk rest)
  ])
]
  where
    other : (u == t) ≡ false → (u == p) ≡ true → (t == p) ≡ false
    other e q = ground (arith, eq_iff u t, eq_iff t p, eq_iff u p)

append-if_nil : {A : Type 0} (b : Bool) (xs : List A) → xs ≡ (xs ++ (if b then [] else []))
append-if_nil true xs = sym (append-nil xs)
append-if_nil false xs = sym (append-nil xs)

append-if_append :
    {A : Type 0} (b : Bool) (xs ys zs : List A)
    → ((xs ++ (if b then ys else [])) ++ (if b then zs else []))
      ≡ (xs ++ (if b then ys ++ zs else []))
append-if_append true xs ys zs = append_assoc xs ys zs
append-if_append false xs ys zs = append-nil (xs ++ [])

named-if :
    (b : Bool) (c : String) (fk : ForeignKey)
    → named c (if b then fk ∷ [] else [])
      ≡ (if fk.owner_name == c then if b then fk.fk_field ∷ [] else [] else [])
named-if true c fk = ground arith
named-if false c fk = ground arith

-- Pushing a foreign key adds it to the references of its owner to its target.
indexed_refs-push :
    (p c : String) (target : Option SchemaName) (fk : ForeignKey) (index : Index)
    → indexed_refs p c (push_one target fk index) ≡ (
        indexed_refs p c index
        ++ (if fk.owner_name == c then back_ref p target fk.fk_field else []))
indexed_refs-push p c none fk index = append-if_nil (fk.owner_name == c) _
indexed_refs-push p c (some t) fk index =
    rw (held-push_fk p t fk index)
      (named-append c _ _ ∙ ap (λ xs. indexed_refs p c index ++ xs) (named-if (t == p) c fk))

indexed_refs-index_fields :
    (p c : String) (i : ℕ) (owner : String) (fs : List FieldDefinition) (index : Index)
    → indexed_refs p c (index_fields i owner fs index)
      ≡ (indexed_refs p c index ++ (if owner == c then back_refs_of p fs else []))
unfolding index_fields
indexed_refs-index_fields p c i owner [] index = append-if_nil (owner == c) _
indexed_refs-index_fields p c i owner (f ∷ fs) index =
    let fk : ForeignKey = record { schema_idx = i; owner_name = owner; fk_field = f.name } in
    indexed_refs-index_fields p c i owner fs (push_one (one_target f.field_type) fk index)
    ∙ ap (λ xs. xs ++ (if owner == c then back_refs_of p fs else []))
        (indexed_refs-push p c (one_target f.field_type) fk index)
    ∙ append-if_append (owner == c) (indexed_refs p c index) _ _

indexed_refs-index_schemas :
    (p c : String) (i : ℕ) (ss : List SchemaDefinition) (index : Index)
    → indexed_refs p c (index_schemas i ss index) ≡ (indexed_refs p c index ++ back_refs p c ss)
unfolding index_schemas back_refs
indexed_refs-index_schemas p c i [] index = sym (append-nil _)
indexed_refs-index_schemas p c i (s ∷ ss) index =
    indexed_refs-index_schemas p c (suc i) ss (index_fields i s.name s.fields index)
    ∙ ap (λ xs. xs ++ back_refs p c ss) (indexed_refs-index_fields p c i s.name s.fields index)
    ∙ append_assoc (indexed_refs p c index) _ _

-- The index of a batch holds, of each schema to each other, the foreign keys in their order.
pub refs-index_schemas :
    (p c : String) (ss : List SchemaDefinition)
    → indexed_refs p c (index_schemas 0 ss []) ≡ back_refs p c ss
unfolding get_fks
refs-index_schemas p c ss = indexed_refs-index_schemas p c 0 ss []
