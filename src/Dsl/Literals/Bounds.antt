-- ===== src/Dsl/Literals/Bounds.antt =====
-- What the number literals of parser.rs are read as fits the machine integer that takes it.
use schemaforge.Prelude.{
  ◌≢◌, arith, eqb, ℕ, zero, suc, ◌+◌, ◌*◌, ◌^◌, ◌≤◌, ◌<◌, String, Option, none, some, ◌≡◌, ltb,
  ◌==◌, ◌||◌, Bool-cases, inl, inr,
}
use Prim.Native.Char.{code}
use schemaforge.Prelude.Int.{ℤ, pos_part, neg_part}
use schemaforge.Core.Text.{to_ascii_uppercase, trim}
use schemaforge.Dsl.Literals.{
  size_units, find_arm, below, parse_unsigned, parse_signed, as_positive, as_negative, digits_value,
  strip_plus, checked_mul, or_else, with_unit, parse_size_literal, split_suffix,
}

-- The range of an i64.
abbrev pub FitsI64 : ℤ → Type 0
FitsI64 z = (pos_part z < 2 ^ 63) × (neg_part z ≤ 2 ^ 63)

below_lt : (bound : ℕ) (o : Option ℕ) (n : ℕ) → below bound o ≡ some n → n < bound
below_lt bound none n h = cc
below_lt bound (some m) n h = ground arith

pub parse_unsigned_lt : (w : ℕ) (s : String) (n : ℕ) → parse_unsigned w s ≡ some n → n < 2 ^ w
unfolding parse_unsigned
parse_unsigned_lt w s n h = below_lt (2 ^ w) (digits_value (strip_plus s)) n h

positive_fits : (o : Option ℕ) (z : ℤ) → as_positive (below (2 ^ 63) o) ≡ some z → FitsI64 z
positive_fits none z h = cc
positive_fits (some n) z h = ground arith

negative_fits : (o : Option ℕ) (z : ℤ) → as_negative (below (2 ^ 63 + 1) o) ≡ some z → FitsI64 z
negative_fits none z h = cc
negative_fits (some zero) z h = ground arith
negative_fits (some (suc n)) z h = ground arith

pub parse_signed-FitsI64 : (s : String) (z : ℤ) → parse_signed s ≡ some z → FitsI64 z
unfolding parse_signed
parse_signed-FitsI64 String.[] z h = cc
parse_signed-FitsI64 (String.◌∷◌ c s) z h = elim (Bool-cases (eqb (code c) b'-')) [
  | inl e ↦ negative_fits (digits_value s) z (rw e at h)
  | inr e ↦ positive_fits (digits_value (strip_plus (String.◌∷◌ c s))) z (rw e at h)
]

checked_mul_lt : (a b : Option ℕ) (n : ℕ) → checked_mul a b ≡ some n → n < 2 ^ 64
checked_mul_lt none b n h = cc
checked_mul_lt (some x) none n h = cc
checked_mul_lt (some x) (some y) n h = elim (Bool-cases (ltb (x * y) (2 ^ 64))) [
  | inl e ↦ ground arith
  | inr e ↦ cc (rw e at h)
]

or_else_lt :
    (a b : Option ℕ) (bound n : ℕ)
    → ((m : ℕ) → a ≡ some m → m < bound)
    → ((m : ℕ) → b ≡ some m → m < bound)
    → or_else a b ≡ some n
    → n < bound
or_else_lt none b bound n ha hb h = hb n h
or_else_lt (some m) b bound n ha hb h = ha n h

with_unit_lt : (number suffix : String) (n : ℕ) → with_unit number suffix ≡ some n → n < 2 ^ 64
unfolding with_unit
with_unit_lt number suffix n h = elim (Bool-cases ((number == "") || (suffix == ""))) [
  | inl e ↦ cc (rw e at h)
  | inr e ↦ checked_mul_lt (parse_unsigned 64 (trim number)) _ n (rw e at h)
]

pub parse_size_literal_lt : (raw : String) (n : ℕ) → parse_size_literal raw ≡ some n → n < 2 ^ 64
unfolding parse_size_literal
parse_size_literal_lt raw n h = elim (Bool-cases (trim raw == "")) [
  | inl e ↦ cc (rw e at h)
  | inr e ↦
      or_else_lt (parse_unsigned 64 (trim raw)) _ (2 ^ 64) n (parse_unsigned_lt 64 (trim raw))
        (with_unit_lt (split_suffix (trim raw)).0 (split_suffix (trim raw)).1) (rw e at h)
]

-- The number and the unit's factor, whose product fits a u64 as it stands.
abbrev pub Scaled : String → String → ℕ → Type 0
Scaled number suffix n =
    (number ≢ "")
    × (suffix ≢ "")
    × (k : ℕ) × (factor : ℕ) × (parse_unsigned 64 (trim number) ≡ some k)
    × (find_arm (to_ascii_uppercase (trim suffix)) size_units ≡ some factor)
    × (n ≡ k * factor)
    × (n < 2 ^ 64)
