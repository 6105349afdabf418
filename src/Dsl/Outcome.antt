-- ===== src/Dsl/Outcome.antt =====
-- What a run of a production of crates/schema-forge-dsl/src/parser.rs gives. The parser's `tokens` and
-- `pos` are the tokens that are left; an error keeps them, since recovery goes on from there.
use schemaforge.Prelude.{List, Bool, true, false}
use schemaforge.Dsl.Token.{SpannedToken}
use schemaforge.Dsl.Error.{DslError}

abbrev pub Tokens : Type 0
Tokens = List SpannedToken

-- `out_of_fuel` has no counterpart in the program.
pub data Outcome (A : Type 0) : Type 0 where
  done : A → Tokens → Outcome A
  failed : DslError → Tokens → Outcome A
  out_of_fuel : Outcome A

abbrev pub Parser : Type 0 → Type 0
Parser A = Tokens → Outcome A

abbrev pub bind : {A B : Type 0} → Outcome A → (A → Parser B) → Outcome B
bind (done a ts) f = f a ts
bind (failed e ts) f = failed e ts
bind out_of_fuel f = out_of_fuel

abbrev pub pure : {A : Type 0} → A → Parser A
pure a ts = done a ts

abbrev pub raise : {A : Type 0} → DslError → Parser A
raise e ts = failed e ts

abbrev pub give_up : {A : Type 0} → Parser A
give_up ts = out_of_fuel

infixl 1 ◌>>=◌ ◌>>◌
abbrev pub ◌>>=◌ : {A B : Type 0} → Parser A → (A → Parser B) → Parser B
p >>= f = λ ts. bind (p ts) f

abbrev pub ◌>>◌ : {A B : Type 0} → Parser A → Parser B → Parser B
p >> q = p >>= λ _. q

-- A test of the code, its branches not yet run.
abbrev pub branch : {A : Type 0} → Bool → Parser A → Parser A → Parser A
branch true p q = p
branch false p q = q
