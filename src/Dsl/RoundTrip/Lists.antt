-- ===== src/Dsl/RoundTrip/Lists.antt =====
-- Printed lists with commas are read back by the loops of parser.rs.
use schemaforge.Prelude.{
  arith, ℕ, zero, suc, ◌≤◌, ◌<◌, Bool, false, List, [], ◌∷◌, ◌++◌, ◌≡◌, refl, sym, ◌∙◌, append-nil,
  append_assoc, length,
}
use schemaforge.Dsl.Token.{Token, Span, same_token}
use schemaforge.Dsl.Outcome.{Tokens, Parser, ◌>>=◌}
use schemaforge.Dsl.Cursor.{comma_loop, comma_separated}
use schemaforge.Dsl.Params.{push}
use schemaforge.Dsl.Printer.{Pieces, separated, more_items}
use schemaforge.Dsl.RoundTrip.{
  place, place-append, behind, Ahead, Reads, Reads-pure, Reads-blank, Reads-skip, Reads-peek,
  Reads-peek_end, Reads-then,
}

-- No token is bad.
abbrev pub never : Token → Bool
never t = false

pub Ahead-never : (ts : Tokens) → Ahead never ts
Ahead-never [] = tt
Ahead-never (st ∷ ts) = refl

abbrev pub is_comma : Token → Bool
is_comma t = same_token t Token.comma

module _ {A B : Type 0} {bad : Token → Bool} where
  -- what follows takes no token
  pub Reads-last :
      (next : Token → Bool) {p : Parser A} (f : A → Parser B) {ps : Pieces} {a : A} {b : B}
      → Reads next p ps a
      → Reads bad (f a) [] b
      → ((u : Token) → bad u ≡ false → next u ≡ false)
      → Reads bad (p >>= f) ps b
  unfolding place
  Reads-last next f {ps} hp hf h = record {
    reads = λ at rest c. rw (hp.reads at rest (weaker rest c)) (hf.reads at rest c);
  }
    where
      weaker : (ts : Tokens) → Ahead bad ts → Ahead next ts
      weaker [] c = tt
      weaker (st ∷ ts) c = h st.token c

module _ {A : Type 0} {bad next : Token → Bool} {p : Parser A} {ps : Pieces} {a : A} where
  -- worse tokens may follow
  pub Reads-weaken :
      Reads next p ps a → ((u : Token) → bad u ≡ false → next u ≡ false) → Reads bad p ps a
  unfolding place
  Reads-weaken hp h = record { reads = λ at rest c. hp.reads at rest (weaker rest c) }
    where
      weaker : (ts : Tokens) → Ahead bad ts → Ahead next ts
      weaker [] c = tt
      weaker (st ∷ ts) c = h st.token c

module _ {S X : Type 0} (after : S → X → S) where
  -- The state behind the items.
  abbrev pub run : S → List X → S
  run s [] = s
  run s (x ∷ xs) = run (after s x) xs

  abbrev pub AllAlong : (S → X → Type 0) → S → List X → Type 0
  AllAlong Good s [] = Unit
  AllAlong Good s (x ∷ xs) = Good s x × AllAlong Good (after s x) xs

pub longer : (ts us : Tokens) → length us ≤ length (ts ++ us)
longer [] us = omega arith
longer (t ∷ ts) us = omega (arith, longer ts us)

-- The items that were pushed are those of the list, behind those that were there.
pub run-push : {X : Type 0} (s xs : List X) → run push s xs ≡ s ++ xs
run-push s [] = sym (append-nil s)
run-push s (x ∷ xs) = run-push (push s x) xs ∙ append_assoc s (x ∷ []) xs

module _ {X : Type 0} (print : X → Pieces) where
  length-place :
      (xs : List X) (at : ℕ → Span) (rest : Tokens)
      → length xs ≤ length (place at (more_items print xs) ++ rest)
  unfolding place
  length-place [] at rest = omega arith
  length-place (x ∷ xs) at rest =
      rw (place-append (print x) (more_items print xs) (λ n. at (suc n)) rest) (
        omega (
          arith,
          longer (place (λ n. at (suc n)) (print x)) _,
          length-place xs (behind (λ n. at (suc n)) (print x)) rest,
        ))

  module _ {S : Type 0} (step : S → Parser S) (after : S → X → S) (Good : S → X → Type 0)
      (item : (s : S) (x : X) → Good s x → Reads never (step s) (print x) (after s x)) where
    Reads-comma_loop :
        (f : ℕ) (s : S) (x : X) (xs : List X)
        → length xs < f
        → Good s x
        → AllAlong after Good (after s x) xs
        → Reads is_comma
            (comma_loop f step s)
            (print x ++ more_items print xs)
            (run after (after s x) xs)
    unfolding comma_loop
    Reads-comma_loop zero s x xs h g gs = absurd (omega arith)
    Reads-comma_loop (suc f) s x [] h g gs = rw append-nil (
        Reads-last never _ (item s x g) (Reads-peek_end Token.comma (λ u e. e) Reads-pure)
          (λ u e. refl))
    Reads-comma_loop (suc f) s x (y ∷ ys) h g gs =
        Reads-then never _ (item s x g)
          (Reads-peek Token.comma (
            Reads-skip (Reads-blank (Reads-comma_loop f (after s x) y ys (omega arith) gs.0 gs.1))))
          (λ at rest c. Ahead-never _)

    pub Reads-comma_separated :
        (s : S) (x : X) (xs : List X)
        → Good s x
        → AllAlong after Good (after s x) xs
        → Reads is_comma
            (comma_separated step s)
            (separated print (x ∷ xs))
            (run after (after s x) xs)
    unfolding comma_separated
    Reads-comma_separated s x xs g gs = record {
      reads = λ at rest c.
          (Reads-comma_loop (suc (length (place at (print x ++ more_items print xs) ++ rest))) s x
              xs (enough at rest) g gs).reads
            at rest c;
    }
      where
        enough :
            (at : ℕ → Span) (rest : Tokens)
            → length xs < suc (length (place at (print x ++ more_items print xs) ++ rest))
        enough at rest = rw (place-append (print x) (more_items print xs) at rest) (
            omega (
              arith,
              longer (place at (print x))
                  (place (behind at (print x)) (more_items print xs) ++ rest),
              length-place xs (behind at (print x)) rest,
            ))
