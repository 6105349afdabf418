-- ===== src/Core/Inverse/Agrees.antt =====
-- The two passes of inverse_relations.rs against the direct pairing.
use schemaforge.Prelude.{
  ℕ, String, Bool, true, false, Option, none, some, List, [], ◌∷◌, ◌++◌, ◌==◌, if◌then◌else◌, map,
  ◌≡◌, refl, sym, ap, Result, ok, err, All, suc, keep,
}
use mathlib.Core.Option
use mathlib.Core.Path.{subst}
use schemaforge.Core.Names.{SchemaName, field_name_new}
use schemaforge.Core.Schema.{FieldDefinition, SchemaDefinition}
use schemaforge.Core.Inverse.{
  pair_matching, ForeignKey, InverseRelationError, get_fks, one_target, many_target, with_fields,
  index_schemas, Pairing, match_fks, pair_target, pair_fields, pair_schemas, apply_pairings,
  apply_result, pair_inverse_relations,
}
use schemaforge.Core.Inverse.Direct.{
  held, named, traverse, back_ref, back_refs_of, back_refs, resolve, direct_target, direct_fields,
  direct, refs-index_schemas,
}
use schemaforge.Core.Inverse.Edits.{
  Match, Match-bind, Match-map, Edits, EditsSchema, Rewrites, Edits-nil, Edits-pairing, Edits-cons,
  Rewrites-cons,
}

-- `FieldName::new` takes the name of every field, which it has taken before.
abbrev pub NamesAreValid : List SchemaDefinition → Type 0
NamesAreValid ss = All (λ s. All (λ f. field_name_new f.name ≡ ok f.name) s.fields) ss

abbrev AllValid : List String → Type 0
AllValid ns = All (λ n. field_name_new n ≡ ok n) ns

AllValid-append : (ms ns : List String) → AllValid ms → AllValid ns → AllValid (ms ++ ns)
AllValid-append [] ns a b = b
AllValid-append (m ∷ ms) ns a b = (a.0, AllValid-append ms ns a.1 b)

AllValid-if : (b : Bool) (ns : List String) → AllValid ns → AllValid (if b then ns else [])
AllValid-if true ns h = h
AllValid-if false ns h = tt

AllValid-back_ref :
    (p : String) (t : Option SchemaName) (n : String)
    → field_name_new n ≡ ok n
    → AllValid (back_ref p t n)
AllValid-back_ref p none n h = tt
AllValid-back_ref p (some t) n h = AllValid-if (t == p) (n ∷ []) (h, tt)

AllValid-back_refs_of :
    (p : String) (fs : List FieldDefinition)
    → All (λ f. field_name_new f.name ≡ ok f.name) fs
    → AllValid (back_refs_of p fs)
AllValid-back_refs_of p [] h = tt
AllValid-back_refs_of p (f ∷ fs) h =
    AllValid-append (back_ref p (one_target f.field_type) f.name) (back_refs_of p fs)
      (AllValid-back_ref p (one_target f.field_type) f.name h.0) (AllValid-back_refs_of p fs h.1)

AllValid-back_refs :
    (p c : String) (ss : List SchemaDefinition) → NamesAreValid ss → AllValid (back_refs p c ss)
unfolding back_refs
AllValid-back_refs p c [] h = tt
AllValid-back_refs p c (s ∷ ss) h =
    AllValid-append (if s.name == c then back_refs_of p s.fields else []) (back_refs p c ss)
      (AllValid-if (s.name == c) (back_refs_of p s.fields) (AllValid-back_refs_of p s.fields h.0))
      (AllValid-back_refs p c ss h.1)

-- One field of the first loop.
Match-match_fks :
    (i j : ℕ) (parent target : String) (f : FieldDefinition) (fks : List ForeignKey)
    → AllValid (map (λ fk. fk.fk_field) fks)
    → Match
        (λ ps g. Edits i j (f ∷ []) ps (g ∷ []))
        (match_fks i j parent f.name target fks)
        (resolve parent target f (map (λ fk. fk.fk_field) fks))
Match-match_fks i j parent target f [] v = Edits-nil i j (f ∷ [])
Match-match_fks i j parent target f (fk ∷ []) v = Edits-pairing i j f fk.fk_field v.0
Match-match_fks i j parent target f (fk ∷ fl ∷ fks) v = refl

Match-pair_matching :
    (i j : ℕ) (parent target : String) (f : FieldDefinition) (o : Option (List ForeignKey))
    (refs : List String)
    → named target (held o) ≡ refs
    → AllValid refs
    → Match
        (λ ps g. Edits i j (f ∷ []) ps (g ∷ []))
        (pair_matching i j parent f.name target o)
        (resolve parent target f refs)
Match-pair_matching i j parent target f none refs e v = rw (sym e) (Edits-nil i j (f ∷ []))
Match-pair_matching i j parent target f (some fks) refs e v = rw (sym e) (
    Match-match_fks i j parent target f (keep (λ fk. fk.owner_name == target) fks)
      (subst AllValid (sym e) v))

module _ (all : List SchemaDefinition) (valid : NamesAreValid all) where
  Match-pair_target :
      (i j : ℕ) (parent : String) (f : FieldDefinition) (target : Option SchemaName)
      → Match
          (λ ps g. Edits i j (f ∷ []) ps (g ∷ []))
          (pair_target (index_schemas 0 all []) i j parent f.name target)
          (direct_target all parent f target)
  Match-pair_target i j parent f none = Edits-nil i j (f ∷ [])
  Match-pair_target i j parent f (some target) =
      Match-pair_matching i j parent target f (get_fks parent (index_schemas 0 all []))
        (back_refs parent target all) (refs-index_schemas parent target all)
        (AllValid-back_refs parent target all valid)

  Match-pair_fields :
      (i j : ℕ) (parent : String) (fs : List FieldDefinition)
      → Match
          (Edits i j fs)
          (pair_fields (index_schemas 0 all []) i parent j fs)
          (traverse (λ f. direct_target all parent f (many_target f.field_type)) fs)
  unfolding pair_fields
  Match-pair_fields i j parent [] = Edits-nil i j []
  Match-pair_fields i j parent (f ∷ fs) =
      Match-bind (λ ps g. Edits i j (f ∷ []) ps (g ∷ [])) (Edits i j (f ∷ fs)) _ _ _ _
        (Match-pair_target i j parent f (many_target f.field_type))
        (λ ps g h.
          Match-bind (Edits i (suc j) fs) (Edits i j (f ∷ fs)) _ _ _ _
            (Match-pair_fields i (suc j) parent fs) (λ qs gs k. Edits-cons i j f g fs gs ps qs h k))

  Match-pair_schemas :
      (i : ℕ) (ss : List SchemaDefinition)
      → Match
          (Rewrites i ss)
          (pair_schemas (index_schemas 0 all []) i ss)
          (traverse (direct_fields all) ss)
  unfolding pair_schemas apply_pairings
  Match-pair_schemas i [] = λ pre a. refl
  Match-pair_schemas i (s ∷ ss) =
      Match-bind (EditsSchema i s) (Rewrites i (s ∷ ss)) _ _ _ _
        (Match-map (Edits i 0 s.fields) (EditsSchema i s) _ _ (with_fields s)
          (Match-pair_fields i 0 s.name s.fields) (λ ps fs h. (h, refl)))
        (λ ps t (h, e).
          Match-bind (Rewrites (suc i) ss) (Rewrites i (s ∷ ss)) _ _ _ _
            (Match-pair_schemas (suc i) ss)
            (λ qs ts k. rw e (Rewrites-cons i s t.fields ss ts ps qs h k)))

apply_result-Match :
    (ss : List SchemaDefinition) (r : Result (List Pairing) InverseRelationError)
    (d : Result (List SchemaDefinition) InverseRelationError)
    → Match (Rewrites 0 ss) r d
    → apply_result ss r ≡ some d
apply_result-Match ss (ok ps) (ok ts) m = ap (Option.map ok) (m [] refl)
apply_result-Match ss (err d) (err e) m = ap (λ x. some (err x)) m
apply_result-Match ss (ok ps) (err e) m = absurd m
apply_result-Match ss (err d) (ok ts) m = absurd m

-- On a batch whose field names are valid, pairing never panics, and in one pass over an index and one
-- over the pairings found, it gives what the direct pairing gives: each collection field whose
-- target schema has exactly one foreign key back becomes derived from it, a field whose target has
-- none is left alone, and the first field whose target has several is reported as ambiguous with
-- all of them.
pub pair_inverse_relations-eq :
    (ss : List SchemaDefinition) → NamesAreValid ss → pair_inverse_relations ss ≡ some (direct ss)
unfolding pair_inverse_relations direct
pair_inverse_relations-eq ss valid = apply_result-Match ss _ _ (Match-pair_schemas ss valid 0 ss)
