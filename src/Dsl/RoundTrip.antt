-- ===== src/Dsl/RoundTrip.antt =====
-- When a production of parser.rs reads what printer.rs wrote. The tokens of the printed pieces may lie
-- anywhere: `at n` is the span of the n-th one.
pub mod Lists
pub mod Text
pub mod Params
pub mod Types
pub mod Repeats
pub mod Members
pub mod Fields
pub mod Annotations
pub mod Schemas
pub mod Files
pub mod Lossy
use schemaforge.Prelude.{
  arith, ℕ, zero, suc, ◌+◌, ◌≤◌, ◌<◌, String, Bool, true, false, Option, none, some, List, [], ◌∷◌,
  ◌++◌, ◌≡◌, refl, sym, ◌∙◌, ap, append_assoc, length, All, Bool-cases, inl, inr, if◌then◌else◌,
  Result, ok,
}
use schemaforge.Dsl.Error.{DslError}
use schemaforge.Dsl.Token.{Token, Span, SpannedToken, same_token}
use schemaforge.Dsl.Outcome.{Tokens, Outcome, done, failed, Parser, bind, pure, ◌>>=◌, ◌>>◌, branch}
use schemaforge.Dsl.Cursor.{
  expect_that, next_token, current_span, from_option, from_result, peek_is, skip, comma_loop,
  comma_separated, peeked, one_more, repeat_loop, repeated,
}
use schemaforge.Dsl.Printer.{Piece, Pieces, word, blank, separated, more_items, comma, space}

unfoldable pub place : (ℕ → Span) → Pieces → Tokens
place at [] = []
place at (word token text ∷ pieces) =
    record { token = token; span = at 0; text = text } ∷ place (λ n. at (suc n)) pieces
place at (blank text ∷ pieces) = place at pieces

-- The next token, if there is one, is none of the bad ones.
abbrev pub Ahead : (Token → Bool) → Tokens → Type 0
Ahead bad [] = Unit
Ahead bad (st ∷ ts) = bad st.token ≡ false

-- Wherever the pieces lie, and whatever good tokens follow, the parser takes them and gives `a`.
pub record Reads {A : Type 0} (bad : Token → Bool) (p : Parser A) (pieces : Pieces) (a : A)
    : Type 0 where
  pub reads :
      (at : ℕ → Span) (rest : Tokens) → Ahead bad rest → p (place at pieces ++ rest) ≡ done a rest

-- The spans behind the first pieces.
abbrev pub behind : (ℕ → Span) → Pieces → ℕ → Span
behind at [] n = at n
behind at (word token text ∷ pieces) n = behind (λ k. at (suc k)) pieces n
behind at (blank text ∷ pieces) n = behind at pieces n

pub place-append :
    (ps qs : Pieces) (at : ℕ → Span) (rest : Tokens)
    → place at (ps ++ qs) ++ rest ≡ place at ps ++ (place (behind at ps) qs ++ rest)
unfolding place
place-append [] qs at rest = refl
place-append (word token text ∷ ps) qs at rest =
    ap (λ ts. record { token = token; span = at 0; text = text } ∷ ts)
      (place-append ps qs (λ n. at (suc n)) rest)
place-append (blank text ∷ ps) qs at rest = place-append ps qs at rest

pub peek-Ahead :
    (t : Token) (ts : Tokens) → Ahead (λ u. same_token u t) ts → peek_is t ts ≡ done false ts
peek-Ahead t [] h = refl
peek-Ahead t (st ∷ ts) h = rw h

abbrev pub token_at : Token → String → Span → SpannedToken
token_at token text span = record { token = token; span = span; text = text }

module _ {B : Type 0} {bad : Token → Bool} {b : B} where
  pub Reads-pure : Reads bad (pure b) [] b
  unfolding place
  Reads-pure = record { reads = λ at rest c. refl }

  pub Reads-blank :
      {p : Parser B} {text : String} {ps : Pieces}
      → Reads bad p ps b
      → Reads bad p (blank text ∷ ps) b
  unfolding place
  Reads-blank h = record { reads = λ at rest c. h.reads at rest c }

  -- one word
  pub Reads-word :
      (accepts : Token → Bool) {expected text : String} {token : Token}
      {f : SpannedToken → Parser B} {ps : Pieces}
      → accepts token ≡ true
      → ((span : Span) → Reads bad (f (token_at token text span)) ps b)
      → Reads bad (expect_that accepts expected >>= f) (word token text ∷ ps) b
  unfolding place
  Reads-word accepts h k = record {
    reads = λ at rest c. rw h ((k (at 0)).reads (λ n. at (suc n)) rest c);
  }

  pub Reads-next :
      {expected text : String} {token : Token} {f : SpannedToken → Parser B} {ps : Pieces}
      → ((span : Span) → Reads bad (f (token_at token text span)) ps b)
      → Reads bad (next_token expected >>= f) (word token text ∷ ps) b
  unfolding place
  Reads-next k = record { reads = λ at rest c. (k (at 0)).reads (λ n. at (suc n)) rest c }

  pub Reads-skip :
      {text : String} {token : Token} {f : Unit {0} → Parser B} {ps : Pieces}
      → Reads bad (f tt) ps b
      → Reads bad (skip >>= f) (word token text ∷ ps) b
  unfolding place
  Reads-skip k = record { reads = λ at rest c. k.reads (λ n. at (suc n)) rest c }

  pub Reads-peek :
      (t : Token) {text : String} {token : Token} {f : Bool → Parser B} {ps : Pieces}
      → Reads bad (f (same_token token t)) (word token text ∷ ps) b
      → Reads bad (peek_is t >>= f) (word token text ∷ ps) b
  unfolding place
  Reads-peek t k = record { reads = λ at rest c. k.reads at rest c }

  pub Reads-peek_end :
      (t : Token) {f : Bool → Parser B}
      → ((u : Token) → bad u ≡ false → same_token u t ≡ false)
      → Reads bad (f false) [] b
      → Reads bad (peek_is t >>= f) [] b
  unfolding place
  Reads-peek_end t {f} h k = record { reads = λ at rest c. by_rest at rest c }
    where
      by_rest :
          (at : ℕ → Span) (rest : Tokens) → Ahead bad rest → bind (peek_is t rest) f ≡ done b rest
      by_rest at [] c = k.reads at [] c
      by_rest at (st ∷ rest) c = rw (h st.token c) (k.reads at (st ∷ rest) c)

  pub Reads-span :
      {eof : Span} {f : Span → Parser B} {ps : Pieces}
      → ((span : Span) → Reads bad (f span) ps b)
      → Reads bad (current_span eof >>= f) ps b
  unfolding place
  Reads-span {eof} {f} {ps} k = record {
    reads = λ at rest c. anywhere (place at ps ++ rest) rest λ span. (k span).reads at rest c;
  }
    where
      anywhere :
          (ts rest : Tokens)
          → ((span : Span) → f span ts ≡ done b rest)
          → bind (current_span eof ts) f ≡ done b rest
      anywhere [] rest h = h eof
      anywhere (st ∷ ts) rest h = h st.span

module _ {A B : Type 0} {bad : Token → Bool} {b : B} where
  pub Reads-option :
      (e : DslError) {o : Option A} (f : A → Parser B) {ps : Pieces} (a : A)
      → o ≡ some a
      → Reads bad (f a) ps b
      → Reads bad (from_option e o >>= f) ps b
  unfolding place
  Reads-option e f a h k = record { reads = λ at rest c. rw h (k.reads at rest c) }

  pub Reads-result :
      {E : Type 0} (g : E → DslError) {r : Result A E} (f : A → Parser B) {ps : Pieces} (a : A)
      → r ≡ ok a
      → Reads bad (f a) ps b
      → Reads bad (from_result g r >>= f) ps b
  unfolding place
  Reads-result g f a h k = record { reads = λ at rest c. rw h (k.reads at rest c) }

  -- a production that takes no token here
  pub Reads-given :
      {p : Parser A} (f : A → Parser B) {ps : Pieces} (a : A)
      → ((ts : Tokens) → p ts ≡ done a ts)
      → Reads bad (f a) ps b
      → Reads bad (p >>= f) ps b
  unfolding place
  Reads-given f {ps} a h k = record {
    reads = λ at rest c. rw (h (place at ps ++ rest)) (k.reads at rest c);
  }

  -- first one production, then what follows it
  pub Reads-then :
      (next : Token → Bool) {p : Parser A} (f : A → Parser B) {ps qs : Pieces} {a : A}
      → Reads next p ps a
      → Reads bad (f a) qs b
      → ((at : ℕ → Span) (rest : Tokens) → Ahead bad rest → Ahead next (place at qs ++ rest))
      → Reads bad (p >>= f) (ps ++ qs) b
  Reads-then next f {ps} {qs} hp hf ahead = record {
    reads = λ at rest c.
        rw
          (
            place-append ps qs at rest,
            hp.reads at (place (behind at ps) qs ++ rest) (ahead (behind at ps) rest c),
          )
          (hf.reads (behind at ps) rest c);
  }
