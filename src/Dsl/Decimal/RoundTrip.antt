-- ===== src/Dsl/Decimal/RoundTrip.antt =====
-- The numbers that printer.rs writes are read back by the literals of parser.rs.
use Prim.Native.Char.{Char, code}
use Prim.Native.Nat.{◌/◌, ◌%◌}
use schemaforge.Prelude.{
  ap, arith, ℕ, zero, suc, ◌+◌, ◌*◌, ◌^◌, ◌≤◌, ◌<◌, String, true, false, some, ◌≡◌, ◌≢◌, refl, ◌∙◌,
  eqb, Bool-cases, inl, inr,
}
use schemaforge.Prelude.Int.{ℤ, pos, negsuc}
use schemaforge.Core.Names.{is_ascii_digit}
use schemaforge.Dsl.Literals.{parse_digits, digits_value, strip_plus, parse_unsigned, parse_signed}
use schemaforge.Dsl.Literals.Bounds.{FitsI64}
use schemaforge.Dsl.Decimal.{digit, digits, to_decimal, to_signed_decimal}

code-digit : (d : ℕ) → d < 10 → code (digit d) ≡ b'0' + d
code-digit zero h = refl
code-digit (suc zero) h = refl
code-digit (suc (suc zero)) h = refl
code-digit (suc (suc (suc zero))) h = refl
code-digit (suc (suc (suc (suc zero)))) h = refl
code-digit (suc (suc (suc (suc (suc zero))))) h = refl
code-digit (suc (suc (suc (suc (suc (suc zero)))))) h = refl
code-digit (suc (suc (suc (suc (suc (suc (suc zero))))))) h = refl
code-digit (suc (suc (suc (suc (suc (suc (suc (suc zero)))))))) h = refl
code-digit (suc (suc (suc (suc (suc (suc (suc (suc (suc zero))))))))) h = refl
code-digit (suc (suc (suc (suc (suc (suc (suc (suc (suc (suc d)))))))))) h = absurd (omega arith)

-- reading one more digit
parse_digits-digit :
    (n d : ℕ) (out : String)
    → d < 10
    → parse_digits n (String.◌∷◌ (digit d) out) ≡ parse_digits (n * 10 + d) out
unfolding parse_digits
parse_digits-digit n d out h = ground (arith, code-digit d h)

parse_digits-eq : (m n : ℕ) (out : String) → m ≡ n → parse_digits m out ≡ parse_digits n out
parse_digits-eq m n out e = ap (λ k. parse_digits k out) e

parse_digits-digits :
    (f n : ℕ) (out : String) → n ≤ f → parse_digits 0 (digits f n out) ≡ parse_digits n out
unfolding digits
parse_digits-digits zero zero out h = refl
parse_digits-digits zero (suc n) out h = absurd (omega arith)
parse_digits-digits (suc f) n out h = elim (Bool-cases (eqb n 0)) [
  | inl e ↦ rw e (parse_digits-eq 0 n out (ground arith))
  | inr e ↦ rw e (
      parse_digits-digits f (n / 10) (String.◌∷◌ (digit (n % 10)) out) (ground arith)
      ∙ parse_digits-digit (n / 10) (n % 10) out (omega arith)
      ∙ parse_digits-eq (n / 10 * 10 + n % 10) n out (omega arith))
]

-- Only a text that begins with a digit is read as a number.
starts_with_digit :
    (c : Char) (s : String) (m n : ℕ)
    → parse_digits m (String.◌∷◌ c s) ≡ some n
    → is_ascii_digit c ≡ true
unfolding parse_digits
starts_with_digit c s m n h = elim (Bool-cases (is_ascii_digit c)) [
  | inl e ↦ e
  | inr e ↦ cc (rw e at h)
]

digits-ne-empty : (f n : ℕ) (out : String) → out ≢ "" → digits f n out ≢ ""
unfolding digits
digits-ne-empty zero n out h = h
digits-ne-empty (suc f) n out h = elim (Bool-cases (eqb n 0)) [
  | inl e ↦ rw e h
  | inr e ↦ rw e (digits-ne-empty f (n / 10) _ λ q. cc q)
]

to_decimal-ne-empty : (n : ℕ) → to_decimal n ≢ ""
unfolding to_decimal digits
to_decimal-ne-empty zero = λ q. cc q
to_decimal-ne-empty (suc n) = rw (positive n) (digits-ne-empty n (suc n / 10) _ λ q. cc q)
  where
    positive : (n : ℕ) → eqb (suc n) 0 ≡ false
    positive n = ground arith

parse_digits-to_decimal : (n : ℕ) → parse_digits 0 (to_decimal n) ≡ some n
unfolding to_decimal parse_digits
parse_digits-to_decimal zero = refl
parse_digits-to_decimal (suc n) = parse_digits-digits (suc n) (suc n) "" (omega arith)

-- A text that is digits only stands for the number that they spell, whatever sign is looked for.
digits_value-plain :
    (s : String) (n : ℕ) → s ≢ "" → parse_digits 0 s ≡ some n → digits_value (strip_plus s) ≡ some n
unfolding digits_value
digits_value-plain String.[] n h e = absurd (h refl)
digits_value-plain (String.◌∷◌ c s) n h e =
    let d = starts_with_digit c s 0 n e in rw (not_plus c d) e
  where
    not_plus : (c : Char) → is_ascii_digit c ≡ true → eqb (code c) b'+' ≡ false
    not_plus c h = ground arith

digits_value-to_decimal : (n : ℕ) → digits_value (strip_plus (to_decimal n)) ≡ some n
digits_value-to_decimal n =
    digits_value-plain (to_decimal n) n (to_decimal-ne-empty n) (parse_digits-to_decimal n)

-- A number that fits is read back from its decimal digits.
pub parse_unsigned-to_decimal : (w n : ℕ) → n < 2 ^ w → parse_unsigned w (to_decimal n) ≡ some n
unfolding parse_unsigned
parse_unsigned-to_decimal w n h = rw (digits_value-to_decimal n) (ground arith)

parse_signed-plain :
    (s : String) (n : ℕ)
    → s ≢ ""
    → parse_digits 0 s ≡ some n
    → n < 2 ^ 63
    → parse_signed s ≡ some (pos n)
unfolding parse_signed
parse_signed-plain String.[] n h e b = absurd (h refl)
parse_signed-plain (String.◌∷◌ c s) n h e b =
    let value = digits_value-plain (String.◌∷◌ c s) n h e in
    rw (not_minus c (starts_with_digit c s 0 n e), value) (ground arith)
  where
    not_minus : (c : Char) → is_ascii_digit c ≡ true → eqb (code c) b'-' ≡ false
    not_minus c h = ground arith

digits_value-unsigned :
    (s : String) (n : ℕ) → s ≢ "" → parse_digits 0 s ≡ some n → digits_value s ≡ some n
unfolding digits_value
digits_value-unsigned String.[] n h e = absurd (h refl)
digits_value-unsigned (String.◌∷◌ c s) n h e = e

parse_signed-minus :
    (s : String) (n : ℕ)
    → suc n ≤ 2 ^ 63
    → s ≢ ""
    → parse_digits 0 s ≡ some (suc n)
    → parse_signed (String.◌∷◌ "-" s) ≡ some (negsuc n)
unfolding parse_signed
parse_signed-minus s n b h e = rw (digits_value-unsigned s (suc n) h e) (ground arith)

-- An integer that fits an i64 is read back from its decimal text, its sign included.
pub parse_signed-to_signed_decimal :
    (z : ℤ) → FitsI64 z → parse_signed (to_signed_decimal z) ≡ some z
unfolding to_signed_decimal
parse_signed-to_signed_decimal (pos n) h =
    parse_signed-plain (to_decimal n) n (to_decimal-ne-empty n) (parse_digits-to_decimal n) h.0
parse_signed-to_signed_decimal (negsuc n) h =
    parse_signed-minus (to_decimal (suc n)) n h.1 (to_decimal-ne-empty (suc n))
      (parse_digits-to_decimal (suc n))
