-- ===== src/Dsl/Cursor.antt =====
-- The cursor helpers and token expectations of crates/schema-forge-dsl/src/parser.rs, and the loop
-- over items between commas that its productions repeat.
pub mod Total
use Prim.Native.String
use schemaforge.Prelude.{
  List, ℕ, zero, suc, String, Bool, true, false, ◌||◌, Option, none, some, [], ◌∷◌, length,
  if◌then◌else◌, Result, ok, err,
}
use schemaforge.Dsl.Token.{
  Token, Span, SpannedToken, description, same_token, is_contextual_ident, string_literal,
  integer_literal, triple_string_literal, ident, comma,
}
use schemaforge.Dsl.Error.{DslError, unexpected_token, unexpected_end_of_input}
use schemaforge.Dsl.Outcome.{
  Tokens, Outcome, done, failed, Parser, pure, raise, give_up, ◌>>=◌, ◌>>◌, branch,
}

-- What a message says was found.
abbrev pub found_text : SpannedToken → String
found_text st = String.◌++◌ (description st.token) (String.◌++◌ " ('" (String.◌++◌ st.text "')"))

abbrev pub peek_is : Token → Parser Bool
peek_is t [] = done false []
peek_is t (st ∷ ts) = done (same_token st.token t) (st ∷ ts)

-- `self.advance();`
abbrev pub skip : Parser (Unit {0})
skip [] = done tt []
skip (st ∷ ts) = done tt ts

-- `self.advance().ok_or_else(..)?`
abbrev pub next_token : String → Parser SpannedToken
next_token expected [] = failed (unexpected_end_of_input expected) []
next_token expected (st ∷ ts) = done st ts

abbrev pub expect_that : (Token → Bool) → String → Parser SpannedToken
expect_that accepts expected [] = failed (unexpected_end_of_input expected) []
expect_that accepts expected (st ∷ ts) =
    if accepts st.token
    then done st ts
    else failed (unexpected_token expected (found_text st) st.span) ts

abbrev pub expect : Token → Parser SpannedToken
expect t = expect_that (λ u. same_token u t) (description t)

abbrev pub is_ident : Token → Bool
is_ident t = same_token t ident || is_contextual_ident t

abbrev pub expect_ident : String → Parser SpannedToken
expect_ident context = expect_that is_ident context

abbrev pub expect_string_literal : Parser SpannedToken
expect_string_literal = expect_that (λ u. same_token u string_literal) "string literal"

abbrev pub expect_integer_literal : Parser SpannedToken
expect_integer_literal = expect_that (λ u. same_token u integer_literal) "integer literal"

abbrev pub expect_triple_string_literal : Parser SpannedToken
expect_triple_string_literal =
    expect_that (λ u. same_token u triple_string_literal) "triple-quoted string literal"

abbrev last_end : Span → Tokens → Span
last_end s [] = s
last_end s (st ∷ ts) = last_end (record { start = st.span.end; end = st.span.end }) ts

-- The place after the last of all tokens, where `current_span` points at the end of input.
unfoldable pub end_of_input : Tokens → Span
end_of_input ts = last_end (record { start = 0; end = 0 }) ts

abbrev pub current_span : Span → Parser Span
current_span eof [] = done eof []
current_span eof (st ∷ ts) = done st.span (st ∷ ts)

-- `ok_or_else(..)?` and `map_err(..)?`
abbrev pub from_option : {A : Type 0} → DslError → Option A → Parser A
from_option e none = raise e
from_option e (some a) = pure a

abbrev pub from_result : {A E : Type 0} → (E → DslError) → Result A E → Parser A
from_result f (ok a) = pure a
from_result f (err e) = raise (f e)

-- `loop { step; if a comma follows { advance } else { break } }`
unfoldable pub comma_loop : {S : Type 0} → ℕ → (S → Parser S) → S → Parser S
comma_loop zero step s = give_up
comma_loop (suc f) step s = do
  s' ← step s
  again ← peek_is comma
  branch again (skip >> comma_loop f step s') (pure s')

-- Each round takes a token, so a round for each token that is left is enough.
abbrev pub with_fuel : {A : Type 0} → (ℕ → Parser A) → Parser A
with_fuel p ts = p (suc (length ts)) ts

unfoldable pub comma_separated : {S : Type 0} → (S → Parser S) → S → Parser S
unfolding comma_loop
comma_separated step s = with_fuel λ f. comma_loop f step s

-- `while let` over the token that is peeked: it says what to parse, or that the loop ends.
abbrev pub peeked : {A : Type 0} → (Token → Option (Parser A)) → Tokens → Option (Parser A)
peeked next [] = none
peeked next (st ∷ ts) = next st.token

abbrev pub one_more : {A : Type 0} → Option (Parser A) → Parser (List A) → Parser (List A)
one_more none loop = pure []
one_more (some p) loop = do a ← p; rest ← loop; pure (a ∷ rest)

unfoldable pub repeat_loop : {A : Type 0} → ℕ → (Token → Option (Parser A)) → Parser (List A)
repeat_loop zero next ts = give_up ts
repeat_loop (suc f) next ts = one_more (peeked next ts) (repeat_loop f next) ts

unfoldable pub repeated : {A : Type 0} → (Token → Option (Parser A)) → Parser (List A)
unfolding repeat_loop
repeated next = with_fuel λ f. repeat_loop f next
