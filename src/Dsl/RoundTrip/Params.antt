-- ===== src/Dsl/RoundTrip/Params.antt =====
-- Parameters that printer.rs writes behind a type are read back by parser.rs.
use mathlib.Core.Path.{subst}
use schemaforge.Prelude.{
  arith, ℕ, ◌<◌, ◌^◌, String, Bool, false, Option, none, some, [], ◌∷◌, ◌≡◌, refl, eq_refl,
}
use schemaforge.Prelude.Int.{ℤ, ltb_ℤ, ◌≤ℤ◌}
use schemaforge.Core.Constraints.{IntegerConstraints}
use schemaforge.Core.Tokens.Match.{find_arm}
use schemaforge.Dsl.Token.{Token, Span, same_token}
use schemaforge.Dsl.Outcome.{Tokens, done}
use schemaforge.Dsl.Cursor.{is_ident, comma_separated}
use schemaforge.Dsl.Literals.Bounds.{FitsI64}
use schemaforge.Dsl.Decimal.{to_decimal, to_signed_decimal}
use schemaforge.Dsl.Decimal.RoundTrip.{parse_unsigned-to_decimal, parse_signed-to_signed_decimal}
use schemaforge.Dsl.Params.{push, Params, value_text, param_value, named_param, parse_named_params}
use schemaforge.Dsl.Types.{
  u32_param, parse_text_params, parse_float_params, i64_param, extract_i64_param, integer_range,
  parse_integer_params,
}
use schemaforge.Dsl.Good.{Below, GoodInteger}
use schemaforge.Dsl.Printer.{
  Pieces, ident, colon, space, lparen, rparen, integer, separated, print_bound, param, print_range,
}
use schemaforge.Dsl.RoundTrip.{
  place, Reads, Reads-pure, Reads-blank, Reads-word, Reads-next, Reads-skip, Reads-peek,
  Reads-peek_end, Reads-span, Reads-option, Reads-given, Reads-then,
}
use schemaforge.Dsl.RoundTrip.Lists.{
  Reads-last, never, is_comma, AllAlong, run-push, Reads-comma_separated,
}

abbrev pub print_param : String × String → Pieces
print_param (key, number) = ident key ∷ colon ∷ space ∷ integer number ∷ []

Reads-named_param :
    (params : Params) (p : String × String)
    → Unit {0}
    → Reads never (named_param params) (print_param p) (push params p)
unfolding named_param param_value value_text
Reads-named_param params (key, number) x =
    Reads-word is_ident refl
      λ span. Reads-word _ refl λ span'. Reads-blank (Reads-next λ span''. Reads-pure)

AllAlong-any : (s xs : Params) → AllAlong push (λ s p. Unit {0}) s xs
AllAlong-any s [] = tt
AllAlong-any s (x ∷ xs) = (tt, AllAlong-any (push s x) xs)

-- Printed parameters are read back as their keys and texts.
pub Reads-named_params :
    (p : String × String) (ps : Params)
    → Reads is_comma parse_named_params (separated print_param (p ∷ ps)) (p ∷ ps)
unfolding parse_named_params
Reads-named_params p ps = Reads-peek Token.rparen (
    subst (Reads is_comma (comma_separated named_param []) (separated print_param (p ∷ ps)))
      (run-push (p ∷ []) ps)
      (Reads-comma_separated print_param named_param push (λ s p. Unit {0}) Reads-named_param [] p
        ps tt (AllAlong-any (p ∷ []) ps)))

abbrev pub is_lparen : Token → Bool
is_lparen t = same_token t Token.lparen

module _ (eof : Span) where
  Reads-u32_param :
      (key message : String) (n : ℕ)
      → n < 2 ^ 32
      → Reads never
          (u32_param eof key message)
          (lparen ∷ ident key ∷ colon ∷ space ∷ integer (to_decimal n) ∷ rparen ∷ [])
          (some n)
  unfolding u32_param find_arm place
  Reads-u32_param key message n h = Reads-skip (
      Reads-then is_comma _ (Reads-named_params (key, to_decimal n) [])
        (Reads-word _ refl λ span. Reads-span λ span'.
          rw (eq_refl key) (Reads-option _ _ n (parse_unsigned-to_decimal 32 n h) Reads-pure))
        (λ at rest c. refl))

  pub Reads-text_params :
      (max : Option ℕ)
      → Below (2 ^ 32) max
      → Reads is_lparen
          (parse_text_params eof)
          (print_bound "max" max)
          (record { max_length = max })
  unfolding parse_text_params print_bound
  Reads-text_params none h = Reads-peek_end Token.lparen (λ u e. e) Reads-pure
  Reads-text_params (some n) h =
      Reads-peek Token.lparen
        (Reads-last never _ (Reads-u32_param "max" "max parameter" n h) Reads-pure (λ u e. refl))

  pub Reads-float_params :
      (precision : Option ℕ)
      → Below (2 ^ 32) precision
      → Reads is_lparen
          (parse_float_params eof)
          (print_bound "precision" precision)
          (record { precision = precision })
  unfolding parse_float_params print_bound
  Reads-float_params none h = Reads-peek_end Token.lparen (λ u e. e) Reads-pure
  Reads-float_params (some n) h = Reads-peek Token.lparen (
      Reads-last never _ (Reads-u32_param "precision" "precision parameter" n h) Reads-pure
        (λ u e. refl))

  given :
      (span : Span) (z : ℤ)
      → FitsI64 z
      → (ts : Tokens) → i64_param span (some (to_signed_decimal z)) ts ≡ done (some z) ts
  unfolding i64_param
  given span z h ts = rw (parse_signed-to_signed_decimal z h) refl

  in_order : (min max : ℤ) → min ≤ℤ max → ltb_ℤ max min ≡ false
  in_order min max h = ground arith

  pub Reads-integer_params :
      (c : IntegerConstraints)
      → GoodInteger c
      → Reads is_lparen (parse_integer_params eof) (print_range c.min c.max) c
  unfolding parse_integer_params print_range param extract_i64_param i64_param find_arm
      integer_range place
  Reads-integer_params c good = by_bounds c.min c.max good
    where
      by_bounds :
          (min max : Option ℤ)
          → GoodInteger (record { min = min; max = max })
          → Reads is_lparen
              (parse_integer_params eof)
              (print_range min max)
              (record { min = min; max = max })
      by_bounds none none g = Reads-peek_end Token.lparen (λ u e. e) Reads-pure
      by_bounds (some a) none g = Reads-peek Token.lparen (
          Reads-span λ span. Reads-skip (
            Reads-then is_comma _ (Reads-named_params ("min", to_signed_decimal a) [])
              (Reads-word _ refl λ span'. Reads-given _ (some a) (given span a g.0) Reads-pure)
              (λ at rest c. refl)))
      by_bounds none (some b) g = Reads-peek Token.lparen (
          Reads-span λ span. Reads-skip (
            Reads-then is_comma _ (Reads-named_params ("max", to_signed_decimal b) [])
              (Reads-word _ refl λ span'. Reads-given _ (some b) (given span b g.1) Reads-pure)
              (λ at rest c. refl)))
      by_bounds (some a) (some b) g = Reads-peek Token.lparen (
          Reads-span λ span. Reads-skip (
            Reads-then is_comma _
              (Reads-named_params ("min", to_signed_decimal a) (("max", to_signed_decimal b) ∷ []))
              (Reads-word _ refl λ span'.
                Reads-given _ (some a) (given span a g.0)
                  (Reads-given _ (some b) (given span b g.1) (rw (in_order a b g.2) Reads-pure)))
              (λ at rest c. refl)))
