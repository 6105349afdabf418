-- ===== src/Dsl/RoundTrip/Files.antt =====
-- The text that `print_all` of printer.rs writes is read back by `parse_file` of parser.rs.
use mathlib.Core.Path.{subst}
use schemaforge.Prelude.{
  arith, ℕ, zero, suc, ◌≤◌, ◌<◌, String, some, [], ◌∷◌, ◌++◌, ◌≡◌, refl, sym, All, ok, length, ◌∙◌,
  ap,
}
use schemaforge.Core.Schema.{SchemaDefinition}
use schemaforge.Dsl.Token.{Token, Span}
use schemaforge.Dsl.Outcome.{Tokens}
use schemaforge.Dsl.Cursor.{end_of_input}
use schemaforge.Dsl.Params.{push}
use schemaforge.Dsl.Parse.{parse_schema, Schemas, after_schema, file_loop, parse_file}
use schemaforge.Dsl.Printer.{Pieces, word, blank, joined}
use schemaforge.Dsl.Printer.Schemas.{print_above, print_schema, print_others, print_schemas}
use schemaforge.Dsl.RoundTrip.{place, behind}
use schemaforge.Dsl.RoundTrip.Lists.{Ahead-never, run, run-push, longer}
use schemaforge.Dsl.RoundTrip.Schemas.{PrintableSchema, Reads-schema}

-- The schemas carry the ids that are drawn, from the k-th one on.
abbrev pub Drawn : (ℕ → String) → ℕ → Schemas → Type 0
Drawn new_id k [] = Unit
Drawn new_id k (s ∷ ss) = (s.id ≡ new_id k) × Drawn new_id (suc k) ss

with_word-longer :
    (ps qs : Pieces) (token : Token) (text : String) (at : ℕ → Span) (rest : Tokens)
    → length rest < length (place at (ps ++ (word token text ∷ qs)) ++ rest)
unfolding place
with_word-longer [] qs token text at rest = omega (arith, longer (place _ qs) rest)
with_word-longer (word t x ∷ ps) qs token text at rest =
    omega (arith, with_word-longer ps qs token text (λ n. at (suc n)) rest)
with_word-longer (blank x ∷ ps) qs token text at rest = with_word-longer ps qs token text at rest

print_schema-longer :
    (s : SchemaDefinition) (at : ℕ → Span) (rest : Tokens)
    → length rest < length (place at (print_schema s) ++ rest)
unfolding print_schema
print_schema-longer s at rest =
    with_word-longer (joined print_above s.annotations) _ Token.schema "schema" at rest

step :
    (eof : Span) (new_id : ℕ → String) (f : ℕ) (ss : Schemas) (ts : Tokens)
    → 0 < length ts
    → file_loop eof new_id (suc f) ss [] ts
      ≡ after_schema (parse_schema eof (new_id (length ss)) ts) ss [] (file_loop eof new_id f)
unfolding file_loop
step eof new_id f ss [] h = absurd (omega (arith, h))
step eof new_id f ss (t ∷ ts) h = refl

place-split :
    (ps qs : Pieces) (at : ℕ → Span) → place at (ps ++ qs) ≡ place at ps ++ place (behind at ps) qs
unfolding place
place-split [] qs at = refl
place-split (word token text ∷ ps) qs at =
    ap (λ ts. record { token = token; span = at 0; text = text } ∷ ts)
      (place-split ps qs (λ n. at (suc n)))
place-split (blank text ∷ ps) qs at = place-split ps qs at

length-push : (ss : Schemas) (s : SchemaDefinition) → length (push ss s) ≡ suc (length ss)
length-push [] s = refl
length-push (x ∷ ss) s = ap suc (length-push ss s)

module _ (eof : Span) (new_id : ℕ → String) where
  Reads-file :
      (f : ℕ) (seen ss : Schemas) (at : ℕ → Span)
      → length ss ≤ f
      → All PrintableSchema ss
      → Drawn new_id (length seen) ss
      → file_loop eof new_id f seen [] (place at (print_others ss)) ≡ some (ok (run push seen ss))
  unfolding file_loop place after_schema
  Reads-file f seen [] at h p d = refl
  Reads-file zero seen (s ∷ ss) at h p d = absurd (omega (arith, h))
  Reads-file (suc f) seen (s ∷ ss) at h (p, ps) (d, ds) =
      let rest = place (behind at (print_schema s)) (print_others ss) in
      rw
        (
          place-split (print_schema s) (print_others ss) at,
          step eof new_id f seen (place at (print_schema s) ++ rest)
              (omega (arith, print_schema-longer s at rest)),
          sym d,
          (Reads-schema eof s p).reads at rest (Ahead-never rest),
        )
        (Reads-file f (push seen s) ss (behind at (print_schema s)) (omega (arith, h)) ps
          (subst (λ k. Drawn new_id k ss) (sym (length-push seen s)) ds))

length-others : (ss : Schemas) (at : ℕ → Span) → length ss ≤ length (place at (print_others ss))
unfolding place
length-others [] at = omega arith
length-others (s ∷ ss) at = rw (place-split (print_schema s) (print_others ss) at) (
    omega (
      arith,
      print_schema-longer s at (place (behind at (print_schema s)) (print_others ss)),
      length-others ss (behind at (print_schema s)),
    ))

-- Printable schemas that carry the ids that the parser draws come back from the words that they are
-- printed as, wherever the tokens of these lie: `parse_file` accepts them and gives the schemas in their
-- order. Printable is a good schema whose names are no keywords, whose texts need no escape and whose float
-- defaults are digits, a point and digits, perhaps behind a minus, with fields of primitive types, arrays
-- of these and relations, without annotations and not derived, and with annotations for the version, the
-- display field, the tenant, a system schema and a bare webhook.
pub parse_file-print_schemas :
    (new_id : ℕ → String) (ss : Schemas) (at : ℕ → Span)
    → All PrintableSchema ss
    → Drawn new_id 0 ss
    → parse_file new_id (place at (print_schemas ss)) ≡ some (ok ss)
unfolding parse_file place
parse_file-print_schemas new_id [] at p d = refl
parse_file-print_schemas new_id (s ∷ ss) at p d =
    let ts = place at (print_others (s ∷ ss)) in
    Reads-file (end_of_input ts) new_id (length ts) [] (s ∷ ss) at (length-others (s ∷ ss) at) p d
    ∙ ap (λ xs. some (ok xs)) (run-push [] (s ∷ ss))
