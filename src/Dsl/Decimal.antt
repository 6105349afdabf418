-- ===== src/Dsl/Decimal.antt =====
-- Numbers as std's `to_string` writes them into the text that printer.rs builds.
pub mod RoundTrip
use Prim.Native.Char.{Char}
use Prim.Native.Nat.{◌/◌, ◌%◌}
use Prim.Native.String
use schemaforge.Prelude.{ℕ, zero, suc, String, eqb, if◌then◌else◌}
use schemaforge.Prelude.Int.{ℤ, pos, negsuc}

abbrev pub digit : ℕ → Char
digit zero = "0"
digit (suc zero) = "1"
digit (suc (suc zero)) = "2"
digit (suc (suc (suc zero))) = "3"
digit (suc (suc (suc (suc zero)))) = "4"
digit (suc (suc (suc (suc (suc zero))))) = "5"
digit (suc (suc (suc (suc (suc (suc zero)))))) = "6"
digit (suc (suc (suc (suc (suc (suc (suc zero))))))) = "7"
digit (suc (suc (suc (suc (suc (suc (suc (suc zero)))))))) = "8"
digit _ = "9"

-- The digits of `n` before `out`; each round divides by ten, so `n` rounds are enough.
unfoldable pub digits : ℕ → ℕ → String → String
digits zero n out = out
digits (suc f) n out =
    let rest = digits f (n / 10) (String.◌∷◌ (digit (n % 10)) out) in if eqb n 0 then out else rest

unfoldable pub to_decimal : ℕ → String
unfolding digits
to_decimal zero = "0"
to_decimal (suc n) = digits (suc n) (suc n) ""

unfoldable pub to_signed_decimal : ℤ → String
unfolding to_decimal
to_signed_decimal (pos n) = to_decimal n
to_signed_decimal (negsuc n) = String.◌∷◌ "-" (to_decimal (suc n))
