-- ===== src/Query/Path/RoundTrip.antt =====
-- Dotted paths of crates/schema-forge-core/src/query.rs, split and joined again.
use Prim.Native.Char.{Char, code}
use Prim.Native.String
use mathlib.Core.Path.{ap₂}
use text.Mathlib.TextEquality.{Char-path}
use text.Mathlib.TextLemmas.{nil-append, cons-append}
use schemaforge.Prelude.{
  String, false, List, [], ◌∷◌, ◌≡◌, ◌≢◌, ◌↔◌, refl, sym, ap, ◌∙◌, eq_iff, arith, any, All, eqb,
  Bool-cases, inl, inr, ok,
}
use schemaforge.Query.Path.{FieldPath, segments, split_dot, join_dot, is_empty, as_dotted, parse}

abbrev pub NoDot : String → Type 0
NoDot String.[] = Unit
NoDot (String.◌∷◌ c s) = (code c ≢ b'.') × NoDot s

join_dot-cons :
    (c : Char) (w : String) (ts : List String)
    → join_dot (String.◌∷◌ c w) ts ≡ String.◌∷◌ c (join_dot w ts)
unfolding join_dot
join_dot-cons c w [] = refl
join_dot-cons c w (t ∷ ts) = cons-append c w _

-- Splitting loses nothing.
join_dot-split_dot : (s : String) → join_dot (split_dot s).first (split_dot s).others ≡ s
unfolding split_dot join_dot
join_dot-split_dot String.[] = refl
join_dot-split_dot (String.◌∷◌ c s) = elim (Bool-cases (eqb (code c) b'.')) [
  | inl dot ↦
      rw dot (nil-append _ ∙ ap₂ String.◌∷◌ (Char-path "." c (ground arith)) (join_dot-split_dot s))
  | inr other ↦ rw other (
      join_dot-cons c (split_dot s).first (split_dot s).others
      ∙ ap (String.◌∷◌ c) (join_dot-split_dot s))
]

split_dot-NoDot : (s : String) → All NoDot (segments (split_dot s))
unfolding split_dot
split_dot-NoDot String.[] = (tt, tt)
split_dot-NoDot (String.◌∷◌ c s) = elim (Bool-cases (eqb (code c) b'.')) [
  | inl dot ↦ rw dot (tt, split_dot-NoDot s)
  | inr other ↦ rw other ((ground arith, (split_dot-NoDot s).0), (split_dot-NoDot s).1)
]

split_dot_of_NoDot : (w : String) → NoDot w → split_dot w ≡ record { first = w; others = [] }
unfolding split_dot
split_dot_of_NoDot String.[] h = refl
split_dot_of_NoDot (String.◌∷◌ c w) h = rw (split_dot_of_NoDot w h.1) (ground arith)

split_dot-append :
    (w r : String)
    → NoDot w
    → split_dot (String.◌++◌ w (String.◌∷◌ "." r))
      ≡ record { first = w; others = segments (split_dot r) }
unfolding split_dot
split_dot-append String.[] r h = rw nil-append
split_dot-append (String.◌∷◌ c w) r h =
    rw cons-append (rw (split_dot-append w r h.1) (ground arith))

-- Segments without dots are found again.
split_dot-join_dot :
    (w : String) (ts : List String)
    → NoDot w
    → All NoDot ts
    → split_dot (join_dot w ts) ≡ record { first = w; others = ts }
unfolding join_dot
split_dot-join_dot w [] h hs = split_dot_of_NoDot w h
split_dot-join_dot w (t ∷ ts) h hs =
    split_dot-append w (join_dot t ts) h
    ∙ ap (λ (p : FieldPath). record { first = w; others = segments p })
        (split_dot-join_dot t ts hs.0 hs.1)

-- A segment is not empty and has no dot.
abbrev pub IsSegment : String → Type 0
IsSegment s = (is_empty s ≡ false) × NoDot s

none_empty : (ss : List String) → All NoDot ss → any is_empty ss ≡ false → All IsSegment ss
none_empty [] h e = tt
none_empty (s ∷ ss) h e = ((ground arith, h.0), none_empty ss h.1 (ground arith))

segments_nonempty : (ss : List String) → All IsSegment ss → any is_empty ss ≡ false
segments_nonempty [] h = refl
segments_nonempty (s ∷ ss) h = ground (arith, segments_nonempty ss h.1)

segments_NoDot : (ss : List String) → All IsSegment ss → All NoDot ss
segments_NoDot [] h = tt
segments_NoDot (s ∷ ss) h = (h.0.1, segments_NoDot ss h.1)

parse-eq-ok :
    (s : String) (p : FieldPath)
    → parse s ≡ ok p
    → (any is_empty (segments (split_dot s)) ≡ false) × (split_dot s ≡ p)
unfolding parse
parse-eq-ok s p h = ground arith

split_dot_cases :
    (s : String) → any is_empty (segments (split_dot s)) ≡ false → parse s ≡ ok (split_dot s)
unfolding parse
split_dot_cases s h = elim (Bool-cases (is_empty s)) [
  | inl e ↦ cc (h, ap (λ t. any is_empty (segments (split_dot t))) ((eq_iff s "").0 e))
  | inr e ↦ rw (e, h)
]

-- A text parses to a path exactly if it is the dotted form of the path and every segment of the path
-- is a non-empty text without dots.
pub parse-eq-ok_iff :
    (s : String) (p : FieldPath)
    → (parse s ≡ ok p) ↔ ((as_dotted p ≡ s) × All IsSegment (segments p))
unfolding as_dotted
parse-eq-ok_iff s p = (forward, backward)
  where
    forward : parse s ≡ ok p → (as_dotted p ≡ s) × All IsSegment (segments p)
    forward h =
        let (nonempty, e) = parse-eq-ok s p h in
        rw (← e)
          (join_dot-split_dot s, none_empty (segments (split_dot s)) (split_dot-NoDot s) nonempty)

    backward : (as_dotted p ≡ s) × All IsSegment (segments p) → parse s ≡ ok p
    backward (e, h) =
        let found : split_dot s ≡ p =
          ap split_dot (sym e)
          ∙ split_dot-join_dot p.first p.others h.0.1 (segments_NoDot p.others h.1) in
        split_dot_cases s (
          ap (λ (q : FieldPath). any is_empty (segments q)) found
          ∙ segments_nonempty (segments p) h)
        ∙ ap ok found
