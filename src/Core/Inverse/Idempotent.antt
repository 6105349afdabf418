-- ===== src/Core/Inverse/Idempotent.antt =====
-- Pairing a batch again, which inverse_relations.rs promises to be safe.
use mathlib.Core.Path.{subst}
use schemaforge.Prelude.{
  String, Option, none, some, List, [], ◌∷◌, ◌≡◌, refl, sym, ap, ◌∙◌, arith, Result, ok, err, ◌>>=◌,
  All,
}
use schemaforge.Core.Names.{SchemaName, field_name_new}
use schemaforge.Core.Schema.{FieldDefinition, SchemaDefinition}
use schemaforge.Core.Inverse.{
  InverseRelationError, many_target, derive_from, with_fields, pair_inverse_relations,
}
use schemaforge.Core.Inverse.Direct.{
  traverse, back_refs_of, back_refs, resolve, direct_target, direct_fields, direct,
}
use schemaforge.Core.Inverse.Agrees.{NamesAreValid, pair_inverse_relations-eq}

-- What pairing changes of a field is at most its source.
abbrev SameField : FieldDefinition → FieldDefinition → Type 0
SameField f g = (f.name ≡ g.name) × (f.field_type ≡ g.field_type)

abbrev Same : {A : Type 0} → (A → A → Type 0) → List A → List A → Type 0
Same R [] [] = Unit
Same R (x ∷ xs) (y ∷ ys) = R x y × Same R xs ys
Same R [] (y ∷ ys) = ⊥
Same R (x ∷ xs) [] = ⊥

abbrev SameSchema : SchemaDefinition → SchemaDefinition → Type 0
SameSchema s t = (s.name ≡ t.name) × Same SameField s.fields t.fields

back_refs_of-Same :
    (p : String) (fs gs : List FieldDefinition)
    → Same SameField fs gs
    → back_refs_of p fs ≡ back_refs_of p gs
back_refs_of-Same p [] [] h = refl
back_refs_of-Same p (f ∷ fs) (g ∷ gs) ((a, b), h) = rw (a, b, back_refs_of-Same p fs gs h) refl
back_refs_of-Same p [] (g ∷ gs) h = absurd h
back_refs_of-Same p (f ∷ fs) [] h = absurd h

back_refs-Same :
    (p c : String) (ss ts : List SchemaDefinition)
    → Same SameSchema ss ts
    → back_refs p c ss ≡ back_refs p c ts
unfolding back_refs
back_refs-Same p c [] [] h = refl
back_refs-Same p c (s ∷ ss) (t ∷ ts) ((a, b), h) =
    rw (a, back_refs_of-Same p s.fields t.fields b, back_refs-Same p c ss ts h) refl
back_refs-Same p c [] (t ∷ ts) h = absurd h
back_refs-Same p c (s ∷ ss) [] h = absurd h

bind_inv :
    {A B : Type 0} (r : Result A InverseRelationError) (k : A → Result B InverseRelationError)
    (b : B)
    → (r >>= k) ≡ ok b
    → (a : A) × (r ≡ ok a) × (k a ≡ ok b)
bind_inv (ok a) k b e = (a, refl, e)
bind_inv (err d) k b e = cc

ok-injective :
    {A : Type 0} (a b : A) → ◌≡◌ {A = Result A InverseRelationError} (ok a) (ok b) → a ≡ b
ok-injective a b e = ground arith

-- The elements of a traversal that succeeds.
traverse_inv :
    {A : Type 0} (f : A → Result A InverseRelationError) (x : A) (xs ys : List A)
    → traverse f (x ∷ xs) ≡ ok ys
    → (y : A) × (zs : List A) × (f x ≡ ok y) × (traverse f xs ≡ ok zs) × (y ∷ zs ≡ ys)
traverse_inv f x xs ys e =
    let (y, a, b) = bind_inv (f x) _ ys e in
    let (zs, c, d) = bind_inv (traverse f xs) _ ys b in (y, zs, a, c, ok-injective (y ∷ zs) ys d)

traverse-Same :
    {A : Type 0} (R : A → A → Type 0) (f : A → Result A InverseRelationError)
    → ((x y : A) → f x ≡ ok y → R x y)
    → (xs ys : List A) → traverse f xs ≡ ok ys
    → Same R xs ys
traverse-Same R f h [] [] e = tt
traverse-Same R f h [] (y ∷ ys) e = cc
traverse-Same R f h (x ∷ xs) ys e =
    let (y, zs, a, b, c) = traverse_inv f x xs ys e in
    subst (Same R (x ∷ xs)) c (h x y a, traverse-Same R f h xs zs b)

-- A second traversal that takes each element found to itself.
traverse-again :
    {A : Type 0} (f g : A → Result A InverseRelationError)
    → ((x y : A) → f x ≡ ok y → g y ≡ ok y)
    → (xs ys : List A) → traverse f xs ≡ ok ys
    → traverse g ys ≡ ok ys
traverse-again f g h [] [] e = refl
traverse-again f g h [] (y ∷ ys) e = cc
traverse-again f g h (x ∷ xs) ys e =
    let (y, zs, a, b, c) = traverse_inv f x xs ys e in
    subst (λ l. traverse g l ≡ ok l) c (rw (h x y a, traverse-again f g h xs zs b) refl)

resolve-SameField :
    (p t : String) (f g : FieldDefinition) (refs : List String)
    → resolve p t f refs ≡ ok g
    → SameField f g
resolve-SameField p t f g [] e = let q = ok-injective f g e in (ground arith, ground arith)
resolve-SameField p t f g (n ∷ []) e =
    let q = ok-injective (derive_from n f) g e in (ap (λ h. h.name) q, ap (λ h. h.field_type) q)
resolve-SameField p t f g (n ∷ m ∷ ns) e = cc

direct_target-SameField :
    (all : List SchemaDefinition) (p : String) (f g : FieldDefinition) (t : Option SchemaName)
    → direct_target all p f t ≡ ok g
    → SameField f g
direct_target-SameField all p f g none e =
    let q = ok-injective f g e in (ap (λ h. h.name) q, ap (λ h. h.field_type) q)
direct_target-SameField all p f g (some t) e = resolve-SameField p t f g (back_refs p t all) e

resolve-again :
    (p t : String) (f g : FieldDefinition) (refs : List String)
    → resolve p t f refs ≡ ok g
    → resolve p t g refs ≡ ok g
resolve-again p t f g [] e = refl
resolve-again p t f g (n ∷ []) e =
    let q = ok-injective (derive_from n f) g e in subst (λ h. resolve p t h (n ∷ []) ≡ ok h) q refl
resolve-again p t f g (n ∷ m ∷ ns) e = cc

direct_fields-SameSchema :
    (all : List SchemaDefinition) (s t : SchemaDefinition)
    → direct_fields all s ≡ ok t
    → SameSchema s t
direct_fields-SameSchema all s t e =
    let (fs, a, b) =
      bind_inv (traverse (λ f. direct_target all s.name f (many_target f.field_type)) s.fields) _ t
        e in
    let q = ok-injective (with_fields s fs) t b in
    subst (SameSchema s) q (
      refl,
      traverse-Same SameField (λ f. direct_target all s.name f (many_target f.field_type))
          (λ f g h. direct_target-SameField all s.name f g (many_target f.field_type) h) s.fields fs
          a,
    )

module _ (all after : List SchemaDefinition) (same : Same SameSchema all after) where
  direct_target-again :
      (p : String) (f g : FieldDefinition) (t : Option SchemaName)
      → direct_target all p f t ≡ ok g
      → direct_target after p g t ≡ ok g
  direct_target-again p f g none e = refl
  direct_target-again p f g (some t) e =
      rw (sym (back_refs-Same p t all after same)) (resolve-again p t f g (back_refs p t all) e)

  again :
      (s : SchemaDefinition) (f g : FieldDefinition)
      → direct_target all s.name f (many_target f.field_type) ≡ ok g
      → direct_target after s.name g (many_target g.field_type) ≡ ok g
  again s f g h =
      subst (λ k. direct_target after s.name g (many_target k) ≡ ok g)
        (direct_target-SameField all s.name f g (many_target f.field_type) h).1
        (direct_target-again s.name f g (many_target f.field_type) h)

  direct_fields-again :
      (s t : SchemaDefinition) → direct_fields all s ≡ ok t → direct_fields after t ≡ ok t
  direct_fields-again s t e =
      let (fs, a, b) =
        bind_inv (traverse (λ f. direct_target all s.name f (many_target f.field_type)) s.fields) _
          t e in
      let q = ok-injective (with_fields s fs) t b in
      subst (λ u. direct_fields after u ≡ ok u) q
        (rw
          (traverse-again (λ f. direct_target all s.name f (many_target f.field_type))
            (λ f. direct_target after s.name f (many_target f.field_type)) (λ f g h. again s f g h)
            s.fields fs a)
          refl)

direct-Same : (ss ts : List SchemaDefinition) → direct ss ≡ ok ts → Same SameSchema ss ts
unfolding direct
direct-Same ss ts e =
    traverse-Same SameSchema (direct_fields ss) (direct_fields-SameSchema ss) ss ts e

direct-idempotent : (ss ts : List SchemaDefinition) → direct ss ≡ ok ts → direct ts ≡ ok ts
unfolding direct
direct-idempotent ss ts e =
    traverse-again (direct_fields ss) (direct_fields ts)
      (direct_fields-again ss ts (direct-Same ss ts e)) ss ts e

valid-Same :
    (fs gs : List FieldDefinition)
    → Same SameField fs gs
    → All (λ f. field_name_new f.name ≡ ok f.name) fs
    → All (λ f. field_name_new f.name ≡ ok f.name) gs
valid-Same [] [] h v = tt
valid-Same (f ∷ fs) (g ∷ gs) ((a, b), h) (v, vs) =
    (subst (λ n. field_name_new n ≡ ok n) a v, valid-Same fs gs h vs)
valid-Same [] (g ∷ gs) h v = absurd h
valid-Same (f ∷ fs) [] h v = absurd h

NamesAreValid-Same :
    (ss ts : List SchemaDefinition) → Same SameSchema ss ts → NamesAreValid ss → NamesAreValid ts
NamesAreValid-Same [] [] h v = tt
NamesAreValid-Same (s ∷ ss) (t ∷ ts) ((a, b), h) (v, vs) =
    (valid-Same s.fields t.fields b v, NamesAreValid-Same ss ts h vs)
NamesAreValid-Same [] (t ∷ ts) h v = absurd h
NamesAreValid-Same (s ∷ ss) [] h v = absurd h

some-ok-injective :
    (d : Result (List SchemaDefinition) InverseRelationError) (ts : List SchemaDefinition)
    → some d ≡ some (ok ts)
    → d ≡ ok ts
some-ok-injective d ts e = ground arith

-- Pairing the batch that pairing a batch of valid field names has given gives that batch again.
pub pair_inverse_relations-idempotent :
    (ss ts : List SchemaDefinition)
    → NamesAreValid ss
    → pair_inverse_relations ss ≡ some (ok ts)
    → pair_inverse_relations ts ≡ some (ok ts)
pair_inverse_relations-idempotent ss ts v e =
    let d = some-ok-injective (direct ss) ts (sym (pair_inverse_relations-eq ss v) ∙ e) in
    pair_inverse_relations-eq ts (NamesAreValid-Same ss ts (direct-Same ss ts d) v)
    ∙ ap some (direct-idempotent ss ts d)
