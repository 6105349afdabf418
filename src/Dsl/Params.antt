-- ===== src/Dsl/Params.antt =====
-- The bracketed and named parameter lists of crates/schema-forge-dsl/src/parser.rs.
use schemaforge.Prelude.{String, Option, none, some, List, [], ◌∷◌, ◌++◌}
use schemaforge.Core.Tokens.Match.{find_arm}
use schemaforge.Dsl.Token.{Token, SpannedToken, lbracket, rbracket, rparen, colon}
use schemaforge.Dsl.Error.{unexpected_token}
use schemaforge.Dsl.Literals.{unquote_string}
use schemaforge.Dsl.Outcome.{Parser, pure, ◌>>=◌, ◌>>◌, branch}
use schemaforge.Dsl.Cursor.{
  found_text, from_option, peek_is, skip, next_token, expect, expect_ident, expect_string_literal,
  comma_separated,
}

abbrev pub push : {A : Type 0} → List A → A → List A
push items item = items ++ item ∷ []

unfoldable pub string_item : List String → Parser (List String)
unfolding unquote_string
string_item items = do tok ← expect_string_literal; pure (push items (unquote_string tok.text))

unfoldable pub parse_string_list : Parser (List String)
unfolding comma_separated string_item
parse_string_list = do
  expect lbracket
  empty ← peek_is rbracket
  branch empty (skip >> pure [])
      do items ← comma_separated string_item []; expect rbracket; pure items

abbrev pub NamedLists : Type 0
NamedLists = List (String × List String)

unfoldable pub named_list : NamedLists → Parser NamedLists
unfolding parse_string_list
named_list lists = do
  key ← expect_ident "list name"
  expect colon
  values ← parse_string_list
  pure (push lists (key.text, values))

unfoldable pub parse_named_string_lists : Parser NamedLists
unfolding named_list comma_separated
parse_named_string_lists = do
  empty ← peek_is rparen
  branch empty (pure []) (comma_separated named_list [])

pub record MixedParams : Type 0 where
  pub lists : NamedLists
  pub scalars : List (String × String)

unfoldable pub mixed_param : MixedParams → Parser MixedParams
unfolding parse_string_list unquote_string
mixed_param params = do
  key ← expect_ident "parameter name"
  expect colon
  bracket ← peek_is lbracket
  branch bracket
      (do
        values ← parse_string_list
        pure (record params { lists = push params.lists (key.text, values) }))
      (do
        value ← expect_string_literal
        pure
            (record params { scalars = push params.scalars (key.text, unquote_string value.text) }))

unfoldable pub parse_named_mixed_params : Parser MixedParams
unfolding mixed_param comma_separated
parse_named_mixed_params = do
  empty ← peek_is rparen
  branch empty (pure (record { lists = []; scalars = [] }))
      (comma_separated mixed_param (record { lists = []; scalars = [] }))

unfoldable pub value_text : Token → String → Option String
unfolding unquote_string
value_text Token.integer_literal t = some t
value_text Token.float_literal t = some t
value_text Token.ident t = some t
value_text Token.string_literal t = some (unquote_string t)
value_text Token.true_keyword t = some "true"
value_text Token.false_keyword t = some "false"
value_text _ t = none

unfoldable pub param_value : SpannedToken → Parser String
unfolding value_text
param_value tok =
    from_option (unexpected_token "parameter value" (found_text tok) tok.span)
      (value_text tok.token tok.text)

abbrev pub Params : Type 0
Params = List (String × String)

unfoldable pub named_param : Params → Parser Params
unfolding param_value
named_param params = do
  key ← expect_ident "parameter name"
  expect colon
  tok ← next_token "parameter value"
  value ← param_value tok
  pure (push params (key.text, value))

unfoldable pub parse_named_params : Parser Params
unfolding named_param comma_separated
parse_named_params = do
  empty ← peek_is rparen
  branch empty (pure []) (comma_separated named_param [])

abbrev pub or_nothing : Option (List String) → List String
or_nothing none = []
or_nothing (some values) = values

-- The values under the first equal key.
unfoldable pub extract_string_list : NamedLists → String → List String
unfolding find_arm
extract_string_list lists key = or_nothing (find_arm key lists)

unfoldable pub extract_optional_string : Params → String → Option String
unfolding find_arm
extract_optional_string scalars key = find_arm key scalars
