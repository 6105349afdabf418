-- ===== src/Core/Inverse/Edits.antt =====
-- What the second pass of inverse_relations.rs does to a batch, pairing by pairing.
use schemaforge.Prelude.{
  append-nil, ℕ, String, Option, some, List, [], ◌∷◌, ◌++◌, ◌≡◌, refl, sym, ap, ◌∙◌, Result, ok,
  err, ◌>>=◌, inl, inr, append_assoc, suc, length, Option-cases,
}
use mathlib.Core.Option
use schemaforge.Core.Names.{field_name_new}
use schemaforge.Core.Schema.{FieldDefinition, SchemaDefinition}
use schemaforge.Core.Inverse.{
  InverseRelationError, derive_from, with_fields, Pairing, update_at, bind_opt, apply_pairing,
  apply_pairings,
}

-- Both fail alike, or both succeed with related values.
abbrev pub Match :
    {A B : Type 0}
    → (A → B → Type 0)
    → Result A InverseRelationError
    → Result B InverseRelationError
    → Type 0
Match R (ok a) (ok b) = R a b
Match R (ok a) (err e) = ⊥
Match R (err d) (ok b) = ⊥
Match R (err d) (err e) = d ≡ e

pub Match-bind :
    {A B C D : Type 0} (R : A → B → Type 0) (S : C → D → Type 0) (r : Result A InverseRelationError)
    (d : Result B InverseRelationError) (k : A → Result C InverseRelationError)
    (l : B → Result D InverseRelationError)
    → Match R r d
    → ((a : A) (b : B) → R a b → Match S (k a) (l b))
    → Match S (r >>= k) (d >>= l)
Match-bind R S (ok a) (ok b) k l m h = h a b m
Match-bind R S (err d) (err e) k l m h = m
Match-bind R S (ok a) (err e) k l m h = absurd m
Match-bind R S (err a) (ok e) k l m h = absurd m

pub Match-map :
    {A B C : Type 0} (R : A → B → Type 0) (S : A → C → Type 0) (r : Result A InverseRelationError)
    (d : Result B InverseRelationError) (h : B → C)
    → Match R r d
    → ((a : A) (b : B) → R a b → S a (h b))
    → Match S r (d >>= λ b. ok (h b))
Match-map R S (ok a) (ok b) h m k = k a b m
Match-map R S (err d) (err e) h m k = m
Match-map R S (ok a) (err e) h m k = absurd m
Match-map R S (err a) (ok e) h m k = absurd m

apply_pairings-append :
    (ps qs : List Pairing) (ss : List SchemaDefinition)
    → apply_pairings (ps ++ qs) ss ≡ bind_opt (apply_pairings ps ss) (apply_pairings qs)
unfolding apply_pairings
apply_pairings-append [] qs ss = refl
apply_pairings-append (p ∷ ps) qs ss = elim (Option-cases (apply_pairing p ss)) [
  | inl e ↦ rw e refl
  | inr (ts, e) ↦ rw e (apply_pairings-append ps qs ts)
]

update_at-append :
    {A : Type 0} (pre : List A) (f : A → Option A) (x : A) (post : List A)
    → update_at (length pre) f (pre ++ x ∷ post) ≡ Option.map (λ y. pre ++ y ∷ post) (f x)
unfolding update_at
update_at-append [] f x post = refl
update_at-append (y ∷ pre) f x post = elim (Option-cases (f x)) [
  | inl e ↦ rw (update_at-append pre f x post, e) refl
  | inr (z, e) ↦ rw (update_at-append pre f x post, e) refl
]

-- Applied at field `j` of schema `i`, the pairings turn the fields `fs` into `gs`.
abbrev pub Edits : ℕ → ℕ → List FieldDefinition → List Pairing → List FieldDefinition → Type 0
Edits i j fs ps gs =
    (pre : List SchemaDefinition) (s : SchemaDefinition) (done rest : List FieldDefinition)
    (post : List SchemaDefinition)
    → i ≡ length pre
    → j ≡ length done
    → apply_pairings ps (pre ++ with_fields s (done ++ (fs ++ rest)) ∷ post)
      ≡ some (pre ++ with_fields s (done ++ (gs ++ rest)) ∷ post)

-- Applied at schema `i`, the pairings turn the schemas `ss` into `ts`.
abbrev pub Rewrites : ℕ → List SchemaDefinition → List Pairing → List SchemaDefinition → Type 0
Rewrites i ss ps ts =
    (pre : List SchemaDefinition)
    → i ≡ length pre
    → apply_pairings ps (pre ++ ss) ≡ some (pre ++ ts)

abbrev pub EditsSchema : ℕ → SchemaDefinition → List Pairing → SchemaDefinition → Type 0
EditsSchema i s ps t = Edits i 0 s.fields ps t.fields × (t ≡ with_fields s t.fields)

pub Edits-nil : (i j : ℕ) (fs : List FieldDefinition) → Edits i j fs [] fs
unfolding apply_pairings
Edits-nil i j fs pre s done rest post a b = refl

pub Edits-pairing :
    (i j : ℕ) (f : FieldDefinition) (fk : String)
    → field_name_new fk ≡ ok fk
    → Edits i j
        (f ∷ [])
        (record { parent_idx = i; field_idx = j; fk_field_name = fk } ∷ [])
        (derive_from fk f ∷ [])
unfolding apply_pairings apply_pairing
Edits-pairing i j f fk valid pre s done rest post a b =
    rw
      (
        valid,
        a,
        b,
        update_at-append pre _ (with_fields s (done ++ (f ∷ rest))) post,
        update_at-append done (λ g. some (derive_from fk g)) f rest,
      )
      refl

length-snoc : {A : Type 0} (xs : List A) (x : A) → length (xs ++ x ∷ []) ≡ suc (length xs)
length-snoc [] x = refl
length-snoc (y ∷ xs) x = ap suc (length-snoc xs x)

pub Edits-cons :
    (i j : ℕ) (f g : FieldDefinition) (fs gs : List FieldDefinition) (ps qs : List Pairing)
    → Edits i j (f ∷ []) ps (g ∷ [])
    → Edits i (suc j) fs qs gs
    → Edits i j (f ∷ fs) (ps ++ qs) (g ∷ gs)
Edits-cons i j f g fs gs ps qs h k pre s done rest post a b =
    let next : apply_pairings qs (pre ++ with_fields s ((done ++ g ∷ []) ++ (fs ++ rest)) ∷ post)
        ≡ some (pre ++ with_fields s ((done ++ g ∷ []) ++ (gs ++ rest)) ∷ post) =
      k pre s (done ++ g ∷ []) rest post a (ap suc b ∙ sym (length-snoc done g)) in
    rw (apply_pairings-append ps qs _, h pre s done (fs ++ rest) post a b)
      (rw (append_assoc done (g ∷ []) (fs ++ rest), append_assoc done (g ∷ []) (gs ++ rest)) at
        next)

pub Rewrites-cons :
    (i : ℕ) (s : SchemaDefinition) (fs : List FieldDefinition) (ss ts : List SchemaDefinition)
    (ps qs : List Pairing)
    → Edits i 0 s.fields ps fs
    → Rewrites (suc i) ss qs ts
    → Rewrites i (s ∷ ss) (ps ++ qs) (with_fields s fs ∷ ts)
Rewrites-cons i s fs ss ts ps qs h k pre a =
    let edited : apply_pairings ps (pre ++ with_fields s (s.fields ++ []) ∷ ss)
        ≡ some (pre ++ with_fields s (fs ++ []) ∷ ss) =
      h pre s [] [] ss a refl in
    let first : apply_pairings ps (pre ++ s ∷ ss) ≡ some (pre ++ with_fields s fs ∷ ss) =
      rw (append-nil s.fields, append-nil fs) at edited in
    let next : apply_pairings qs ((pre ++ with_fields s fs ∷ []) ++ ss)
        ≡ some ((pre ++ with_fields s fs ∷ []) ++ ts) =
      k (pre ++ with_fields s fs ∷ []) (ap suc a ∙ sym (length-snoc pre (with_fields s fs))) in
    rw (apply_pairings-append ps qs _, first)
      (rw (append_assoc pre (with_fields s fs ∷ []) ss, append_assoc pre (with_fields s fs ∷ []) ts)
        at next)
