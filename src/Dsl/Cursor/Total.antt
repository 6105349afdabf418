-- ===== src/Dsl/Cursor/Total.antt =====
-- Runs of parser.rs that keep within their fuel, take tokens and return values of a kind.
use schemaforge.Prelude.{
  All, arith, ℕ, zero, suc, ◌+◌, ◌-◌, ◌≤◌, ◌<◌, Bool, true, false, Option, none, some, [], ◌∷◌, ◌≡◌,
  refl, Bool-cases, inl, inr, length, Result, ok, err, String,
}
use schemaforge.Dsl.Token.{Token, Span, comma}
use schemaforge.Dsl.Error.{DslError}
use schemaforge.Dsl.Outcome.{
  Tokens, Outcome, done, failed, Parser, bind, pure, raise, ◌>>=◌, ◌>>◌, branch,
}
use schemaforge.Dsl.Cursor.{
  one_more, repeated, peeked, repeat_loop, List, comma_separated, same_token, peek_is, skip,
  next_token, expect_that, current_span, from_option, from_result, comma_loop,
}

-- A run on `ts` that takes at least `d` tokens and gives a value with `P`, or fails with at least `e`
-- tokens taken (or none left).
pub data Within {A : Type 0} (d e : ℕ) (P : A → Type 0) (ts : Tokens) : Outcome A → Type 0 where
  finished :
      {a : A} {rest : Tokens} → P a → length rest + d ≤ length ts → Within d e P ts (done a rest)
  refused :
      {error : DslError} {rest : Tokens}
      → length rest ≤ length ts - e
      → Within d e P ts (failed error rest)

abbrev pub Total : {A : Type 0} → ℕ → ℕ → (A → Type 0) → Parser A → Type 0
Total d e P p = (ts : Tokens) → Within d e P ts (p ts)

-- The same for the token lists of at most `n` tokens.
abbrev pub Upto : {A : Type 0} → ℕ → ℕ → ℕ → (A → Type 0) → Parser A → Type 0
Upto n d e P p = (ts : Tokens) → length ts ≤ n → Within d e P ts (p ts)

abbrev pub Any : {A : Type 0} → A → Type 0
Any a = Unit

module _ {A : Type 0} {P Q : A → Type 0} where
  pub Within-weaken :
      {d e d' e' : ℕ} {ts ts' : Tokens} {o : Outcome A}
      → ((a : A) → P a → Q a)
      → length ts + d' ≤ length ts' + d
      → length ts - e ≤ length ts' - e'
      → Within d e P ts o
      → Within d' e' Q ts' o
  Within-weaken k h h' (finished p q) = finished (k _ p) (omega arith)
  Within-weaken k h h' (refused q) = refused (omega arith)

module _ {A B : Type 0} {P : A → Type 0} {Q : B → Type 0} where
  pub Within-bind :
      {d e d' e' : ℕ} {ts : Tokens} {o : Outcome A} {f : A → Parser B}
      → e' ≤ e
      → Within d e P ts o
      → ((a : A) (rest : Tokens) → P a → length rest + d ≤ length ts → Within d' e' Q ts (f a rest))
      → Within d' e' Q ts (bind o f)
  Within-bind h (finished p q) k = k _ _ p q
  Within-bind h (refused q) k = refused (omega arith)

  -- first `p`, which takes a token, then what may take none
  pub Upto-then :
      (n : ℕ) {p : Parser A} {f : A → Parser B}
      → Total 1 1 P p
      → ((a : A) → P a → Upto n 0 0 Q (f a))
      → Upto (suc n) 1 1 Q (p >>= f)
  Upto-then n hp hf ts h =
      Within-bind (omega arith) (hp ts) λ a rest x q.
        Within-weaken (λ b y. y) (omega arith) (omega arith) (hf a x rest (omega arith))

  pub Upto-seq :
      (n : ℕ) {p : Parser A} {f : A → Parser B}
      → Upto n 0 0 P p
      → ((a : A) → P a → Upto n 0 0 Q (f a))
      → Upto n 0 0 Q (p >>= f)
  Upto-seq n hp hf ts h =
      Within-bind (omega arith) (hp ts h) λ a rest x q.
        Within-weaken (λ b y. y) (omega arith) (omega arith) (hf a x rest (omega arith))

  -- first `p`, which may take none but fails only behind one, then what takes a token
  pub Total-lead :
      {p : Parser A} {f : A → Parser B}
      → Total 0 1 P p
      → ((a : A) → P a → Total 1 1 Q (f a))
      → Total 1 1 Q (p >>= f)
  Total-lead hp hf ts =
      Within-bind (omega arith) (hp ts)
        λ a rest x q. Within-weaken (λ b y. y) (omega arith) (omega arith) (hf a x rest)

  pub Total-then :
      {p : Parser A} {f : A → Parser B}
      → Total 1 1 P p
      → ((a : A) → P a → Total 0 0 Q (f a))
      → Total 1 1 Q (p >>= f)
  Total-then hp hf ts = Upto-then (length ts) hp (λ a x rest q. hf a x rest) ts (omega arith)

  pub Total-seq :
      {p : Parser A} {f : A → Parser B}
      → Total 0 0 P p
      → ((a : A) → P a → Total 0 0 Q (f a))
      → Total 0 0 Q (p >>= f)
  Total-seq hp hf ts =
      Upto-seq (length ts) (λ ts' q. hp ts') (λ a x rest q. hf a x rest) ts (omega arith)

module _ {A : Type 0} {P : A → Type 0} where
  pub Total-weak : {p : Parser A} → Total 1 1 P p → Total 0 0 P p
  Total-weak h ts = Within-weaken (λ a x. x) (omega arith) (omega arith) (h ts)

  pub Upto-Total : {n d e : ℕ} {p : Parser A} → Total d e P p → Upto n d e P p
  Upto-Total h ts q = h ts

  pub Total-loose : {p : Parser A} → Total 0 1 P p → Total 0 0 P p
  Total-loose h ts = Within-weaken (λ a x. x) (omega arith) (omega arith) (h ts)

  pub Total-pure : {a : A} → P a → Total 0 0 P (pure a)
  Total-pure x ts = finished x (omega arith)

  pub Total-raise : {e : DslError} → Total 0 0 P (raise e)
  Total-raise ts = refused (omega arith)

  pub Upto-branch :
      {n d e : ℕ} (b : Bool) {p q : Parser A}
      → (b ≡ true → Upto n d e P p)
      → (b ≡ false → Upto n d e P q)
      → Upto n d e P (branch b p q)
  Upto-branch true hp hq = hp refl
  Upto-branch false hp hq = hq refl

  pub Total-branch :
      {d e : ℕ} (b : Bool) {p q : Parser A}
      → (b ≡ true → Total d e P p)
      → (b ≡ false → Total d e P q)
      → Total d e P (branch b p q)
  Total-branch true hp hq = hp refl
  Total-branch false hp hq = hq refl

  pub Total-from_option :
      (e : DslError) (o : Option A) → ((a : A) → o ≡ some a → P a) → Total 0 0 P (from_option e o)
  Total-from_option e none h ts = refused (omega arith)
  Total-from_option e (some a) h ts = finished (h a refl) (omega arith)

  pub Total-from_result :
      {E : Type 0} (f : E → DslError) (r : Result A E)
      → ((a : A) → r ≡ ok a → P a)
      → Total 0 0 P (from_result f r)
  Total-from_result f (ok a) h ts = finished (h a refl) (omega arith)
  Total-from_result f (err e) h ts = refused (omega arith)

pub Total-peek_is : (t : Token) → Total 0 0 Any (peek_is t)
Total-peek_is t [] = finished tt (omega arith)
Total-peek_is t (st ∷ ts) = finished tt (omega arith)

pub Total-current_span : {e : ℕ} (eof : Span) → Total 0 e Any (current_span eof)
Total-current_span eof [] = finished tt (omega arith)
Total-current_span eof (st ∷ ts) = finished tt (omega arith)

pub Total-skip : Total 0 0 Any skip
Total-skip [] = finished tt (omega arith)
Total-skip (st ∷ ts) = finished tt (omega arith)

pub Total-next_token : (expected : String) → Total 1 1 Any (next_token expected)
Total-next_token expected [] = refused (omega arith)
Total-next_token expected (st ∷ ts) = finished tt (omega arith)

pub Total-expect_that :
    (accepts : Token → Bool) (expected : String) → Total 1 1 Any (expect_that accepts expected)
Total-expect_that accepts expected [] = refused (omega arith)
Total-expect_that accepts expected (st ∷ ts) = elim (Bool-cases (accepts st.token)) [
  | inl e ↦ rw e (finished tt (omega arith))
  | inr e ↦ rw e (refused (omega arith))
]

module _ {S : Type 0} {I : S → Type 0} {step : S → Parser S}
    (keeps : (s : S) → I s → Total 1 1 I (step s)) where
  -- what follows a round of the loop
  Total-loop_end :
      (p : Parser S) (s : S) (ts rest : Tokens)
      → I s
      → length rest + 1 ≤ length ts
      → ((ts' : Tokens) → length ts' < length rest → Within 1 1 I ts' (p ts'))
      → Within 1 1 I ts (bind (peek_is comma rest) λ again. branch again (skip >> p) (pure s))
  Total-loop_end p s ts [] i q h = finished i q
  Total-loop_end p s ts (st ∷ rest) i q h = elim (Bool-cases (same_token st.token comma)) [
    | inl e ↦ rw e (Within-weaken (λ a x. x) (omega arith) (omega arith) (h rest (omega arith)))
    | inr e ↦ rw e (finished i q)
  ]

  Total-comma_loop :
      (f : ℕ) (s : S)
      → I s
      → (ts : Tokens) → length ts < f
      → Within 1 1 I ts (comma_loop f step s ts)
  unfolding comma_loop
  Total-comma_loop zero s i ts h = absurd (omega arith)
  Total-comma_loop (suc f) s i ts h = Within-bind (omega arith) (keeps s i ts) λ s' rest i' q.
      Total-loop_end (comma_loop f step s') s' ts rest i' q
        λ ts' h'. Total-comma_loop f s' i' ts' (omega arith)

  pub Total-comma_separated : (s : S) → I s → Total 1 1 I (comma_separated step s)
  unfolding comma_separated
  Total-comma_separated s i ts = Total-comma_loop (suc (length ts)) s i ts (omega arith)

module _ {A : Type 0} {P : A → Type 0} (n : ℕ) (next : Token → Option (Parser A))
    (good : (t : Token) (p : Parser A) → next t ≡ some p → Upto n 1 1 P p) where
  Total-more :
      (a : A)
      → P a
      → (ts : Tokens) (o : Outcome (List A)) → Within 0 1 (λ xs. All P xs) ts o
      → Within 0 1 (λ xs. All P xs) ts (bind o λ xs. pure (a ∷ xs))
  Total-more a x ts o h =
      Within-bind {d = 0} {e = 1} (omega arith) h λ xs rest ys q. finished (x, ys) q

  Total-one_more :
      (o : Option (Parser A)) (loop : Parser (List A)) (ts : Tokens)
      → length ts ≤ n
      → ((p : Parser A) → o ≡ some p → Upto n 1 1 P p)
      → ((rest : Tokens) → length rest < length ts → Within 0 1 (λ xs. All P xs) rest (loop rest))
      → Within 0 1 (λ xs. All P xs) ts (one_more o loop ts)
  Total-one_more none loop ts b h k = finished tt (omega arith)
  Total-one_more (some p) loop ts b h k = Within-bind (omega arith) (h p refl ts b) λ a rest x q.
      Within-weaken {d = 0} {e = 1} (λ bs y. y) (omega arith) (omega arith)
        (Total-more a x rest (loop rest) (k rest (omega arith)))

  peeked-good : (ts : Tokens) (p : Parser A) → peeked next ts ≡ some p → Upto n 1 1 P p
  peeked-good [] p h = cc h
  peeked-good (st ∷ ts) p h = good st.token p h

  Total-repeat_loop :
      (f : ℕ) (ts : Tokens)
      → length ts ≤ n
      → length ts < f
      → Within 0 1 (λ xs. All P xs) ts (repeat_loop f next ts)
  unfolding repeat_loop
  Total-repeat_loop zero ts b h = absurd (omega arith)
  Total-repeat_loop (suc f) ts b h =
      Total-one_more (peeked next ts) (repeat_loop f next) ts b (peeked-good ts)
        λ rest q. Total-repeat_loop f rest (omega arith) (omega arith)

  pub Upto-repeated : Upto n 0 1 (λ xs. All P xs) (repeated next)
  unfolding repeated
  Upto-repeated ts b = Total-repeat_loop (suc (length ts)) ts b (omega arith)

pub Total-repeated :
    {A : Type 0} {P : A → Type 0} (next : Token → Option (Parser A))
    → ((t : Token) (p : Parser A) → next t ≡ some p → Total 1 1 P p)
    → Total 0 1 (λ xs. All P xs) (repeated next)
Total-repeated next good ts =
    Upto-repeated (length ts) next (λ t p e ts' q. good t p e ts') ts (omega arith)

pub some-injective : {A : Type 0} (a b : A) → some a ≡ some b → a ≡ b
some-injective a b h = cc h
