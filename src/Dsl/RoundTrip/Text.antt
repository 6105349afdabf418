-- ===== src/Dsl/RoundTrip/Text.antt =====
-- Quoted texts and parameter lists that printer.rs writes are read back by parser.rs.
use Prim.Native.Char.{Char, code}
use Prim.Native.String
use mathlib.Core.Path.{subst}
use text.Mathlib.TextLemmas.{cons-append}
use schemaforge.Prelude.{
  arith, String, false, ◌==◌, eq_iff, List, [], ◌∷◌, ◌++◌, ◌≡◌, ◌≢◌, refl, eqb, All, Bool-cases,
  inl, inr,
}
use schemaforge.Core.Names.Valid.{AllChars}
use schemaforge.Dsl.Token.{Token}
use schemaforge.Dsl.Cursor.{comma_separated}
use schemaforge.Dsl.Literals.{drop_last, unescape, unquote_string}
use schemaforge.Dsl.Params.{push, string_item, parse_string_list}
use schemaforge.Dsl.Printer.{quote, quoted_item, print_strings, lbracket, rbracket}
use schemaforge.Dsl.RoundTrip.{
  Reads, Reads-pure, Reads-word, Reads-skip, Reads-peek, place, Reads-then,
}
use schemaforge.Dsl.RoundTrip.Lists.{never, is_comma, AllAlong, run-push, Reads-comma_separated}

-- A character that stands for itself between quotes.
abbrev pub PlainChar : Char → Type 0
PlainChar c = (code c ≢ b'\\') × (code c ≢ b'"')

abbrev pub Plain : String → Type 0
Plain s = AllChars PlainChar s

cons-eq_empty : (c : Char) (t : String) → (String.◌∷◌ c t == "") ≡ false
cons-eq_empty c t = elim (Bool-cases (String.◌∷◌ c t == "")) [
  | inl e ↦ absurd (nonempty ((eq_iff (String.◌∷◌ c t) "").0 e))
  | inr e ↦ e
]
  where
    nonempty : String.◌∷◌ c t ≡ "" → ⊥
    nonempty q = cc q

append-ne-empty : (s : String) → (String.◌++◌ s "\"" == "") ≡ false
append-ne-empty String.[] = refl
append-ne-empty (String.◌∷◌ c s) = rw cons-append (cons-eq_empty c _)

drop_last-append : (s : String) → drop_last (String.◌++◌ s "\"") ≡ s
unfolding drop_last
drop_last-append String.[] = refl
drop_last-append (String.◌∷◌ c s) = rw (cons-append, append-ne-empty s, drop_last-append s) refl

unescape-Plain : (s : String) → Plain s → unescape false s ≡ s
unfolding unescape
unescape-Plain String.[] h = refl
unescape-Plain (String.◌∷◌ c s) (p, h) = rw (not_backslash c p.0, unescape-Plain s h) refl
  where
    not_backslash : (c : Char) → code c ≢ b'\\' → eqb (code c) b'\\' ≡ false
    not_backslash c h = ground arith

-- A plain text comes back from between its quotes.
pub unquote_string-quote : (s : String) → Plain s → unquote_string (quote s) ≡ s
unfolding unquote_string
unquote_string-quote s h = rw (drop_last-append s) (unescape-Plain s h)

abbrev Free : List String → String → Type 0
Free items s = Plain s

Reads-string_item :
    (items : List String) (s : String)
    → Plain s
    → Reads never (string_item items) (quoted_item s) (push items s)
unfolding string_item
Reads-string_item items s h = Reads-word _ refl λ span. rw (unquote_string-quote s h) Reads-pure

AllAlong-Free : (s xs : List String) → All Plain xs → AllAlong push Free s xs
AllAlong-Free s [] h = tt
AllAlong-Free s (x ∷ xs) (p, h) = (p, AllAlong-Free (push s x) xs h)

Reads-strings :
    (x : String) (xs : List String)
    → Plain x
    → All Plain xs
    → Reads is_comma (comma_separated string_item []) (print_strings (x ∷ xs)) (x ∷ xs)
Reads-strings x xs p h =
    let read =
      Reads-comma_separated quoted_item string_item push Free Reads-string_item [] x xs p
        (AllAlong-Free (x ∷ []) xs h) in
    subst (Reads is_comma (comma_separated string_item []) (print_strings (x ∷ xs)))
      (run-push (x ∷ []) xs) read

-- A printed list of plain texts is read back.
pub Reads-string_list :
    (xs : List String)
    → All Plain xs
    → Reads never parse_string_list (lbracket ∷ print_strings xs ++ rbracket ∷ []) xs
unfolding parse_string_list place
Reads-string_list [] h = Reads-word _ refl λ span. Reads-peek Token.rbracket (Reads-skip Reads-pure)
Reads-string_list (x ∷ xs) (p, h) = Reads-word _ refl λ span. Reads-peek Token.rbracket (
    Reads-then is_comma _ (Reads-strings x xs p h) (Reads-word _ refl λ span'. Reads-pure)
      (λ at rest c. refl))
