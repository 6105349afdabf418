-- ===== src/Dsl/RoundTrip/Repeats.antt =====
-- Printed sequences without commas are read back by the loops of parser.rs.
use schemaforge.Prelude.{
  arith, ℕ, zero, suc, ◌≤◌, ◌<◌, Bool, false, Option, none, some, List, [], ◌∷◌, ◌++◌, ◌≡◌, refl,
  length, All,
}
use schemaforge.Dsl.Token.{Token, Span}
use schemaforge.Dsl.Outcome.{Tokens, Parser}
use schemaforge.Dsl.Cursor.{peeked, repeat_loop, repeated}
use schemaforge.Dsl.Printer.{Pieces, joined}
use schemaforge.Dsl.RoundTrip.{place, place-append, behind, Ahead, Reads}

-- How the loop reads an item: the parser that it picks by the item's first token reads it, wherever no
-- token that is bad between items follows.
pub record Item {A : Type 0} (next : Token → Option (Parser A)) (between : Token → Bool)
    (pieces : Pieces) (x : A) : Type 0 where
  pub parser : Parser A
  pub picked : (at : ℕ → Span) (rest : Tokens) → peeked next (place at pieces ++ rest) ≡ some parser
  pub read : Reads between parser pieces x
  pub starts : (at : ℕ → Span) (rest : Tokens) → Ahead between (place at pieces ++ rest)

module _ {A : Type 0} (next : Token → Option (Parser A)) (between ends : Token → Bool)
    (stop : (u : Token) → ends u ≡ false → next u ≡ none)
    (fits : (u : Token) → ends u ≡ false → between u ≡ false) (print : A → Pieces) where
  peeked-none : (rest : Tokens) → Ahead ends rest → peeked next rest ≡ none
  peeked-none [] c = refl
  peeked-none (st ∷ rest) c = stop st.token c

  Ahead-between : (rest : Tokens) → Ahead ends rest → Ahead between rest
  Ahead-between [] c = tt
  Ahead-between (st ∷ rest) c = fits st.token c

  ahead :
      (xs : List A)
      → All (λ x. Item next between (print x) x) xs
      → (at : ℕ → Span) (rest : Tokens) → Ahead ends rest
      → Ahead between (place at (joined print xs) ++ rest)
  unfolding place
  ahead [] h at rest c = Ahead-between rest c
  ahead (x ∷ xs) (i, is) at rest c =
      rw (place-append (print x) (joined print xs) at rest) (i.starts at _)

  Reads-repeat_loop :
      (f : ℕ) (xs : List A)
      → length xs < f
      → All (λ x. Item next between (print x) x) xs
      → Reads ends (repeat_loop f next) (joined print xs) xs
  unfolding repeat_loop place
  Reads-repeat_loop zero xs h is = absurd (omega arith)
  Reads-repeat_loop (suc f) [] h is = record { reads = λ at rest c. rw (peeked-none rest c) refl }
  Reads-repeat_loop (suc f) (x ∷ xs) h (i, is) = record {
    reads = λ at rest c.
        let tail = place (behind at (print x)) (joined print xs) ++ rest in
        rw
          (
            place-append (print x) (joined print xs) at rest,
            i.picked at tail,
            i.read.reads at tail (ahead xs is (behind at (print x)) rest c),
            (Reads-repeat_loop f xs (omega arith) is).reads (behind at (print x)) rest c,
          )
          refl;
  }

  some-length :
      (p : Parser A) (ts us : Tokens)
      → peeked next (ts ++ []) ≡ some p
      → suc (length us) ≤ length (ts ++ us)
  some-length p [] us h = cc h
  some-length p (t ∷ ts) us h = longer ts us
    where
      longer : (ts us : Tokens) → suc (length us) ≤ suc (length (ts ++ us))
      longer [] us = omega arith
      longer (t ∷ ts) us = omega (arith, longer ts us)

  length-joined :
      (xs : List A)
      → All (λ x. Item next between (print x) x) xs
      → (at : ℕ → Span) (rest : Tokens) → length xs ≤ length (place at (joined print xs) ++ rest)
  unfolding place
  length-joined [] is at rest = omega arith
  length-joined (x ∷ xs) (i, is) at rest =
      let tail = place (behind at (print x)) (joined print xs) ++ rest in
      rw (place-append (print x) (joined print xs) at rest) (
        omega (
          arith,
          length-joined xs is (behind at (print x)) rest,
          some-length i.parser (place at (print x)) tail (i.picked at []),
        ))

  pub Reads-repeated :
      (xs : List A)
      → All (λ x. Item next between (print x) x) xs
      → Reads ends (repeated next) (joined print xs) xs
  unfolding repeated
  Reads-repeated xs is = record {
    reads = λ at rest c.
        (Reads-repeat_loop (suc (length (place at (joined print xs) ++ rest))) xs
            (omega (arith, length-joined xs is at rest)) is).reads
          at rest c;
  }
