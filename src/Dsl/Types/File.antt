-- ===== src/Dsl/Types/File.antt =====
-- `parse_file_params` of crates/schema-forge-dsl/src/parser.rs.
use Prim.Native.String
use schemaforge.Prelude.{ℕ, String, Option, none, some, List, [], ◌∷◌, ◌==◌, eqb}
use schemaforge.Core.Constraints.{MimePattern, FileAccess, presigned, FileConstraints}
use schemaforge.Core.Mime.{mime_parse}
use schemaforge.Core.Tokens.Match.{find_arm}
use schemaforge.Core.Tokens.Lifecycle.{access_from_str}
use schemaforge.Dsl.Token.{Token, Span, SpannedToken, lparen, rparen, colon}
use schemaforge.Dsl.Error.{
  unexpected_token, core_schema_error, invalid_file_param, invalid_size_literal,
}
use schemaforge.Dsl.Literals.{parse_size_literal, unquote_string}
use schemaforge.Dsl.Outcome.{Parser, pure, raise, ◌>>=◌, ◌>>◌, branch}
use schemaforge.Dsl.Cursor.{
  found_text, peek_is, next_token, expect, expect_ident, expect_string_literal, current_span,
  from_option, from_result, comma_separated,
}
use schemaforge.Dsl.Params.{parse_string_list}

-- The four local variables.
pub record FileParams : Type 0 where
  pub bucket : Option String
  pub max_size : Option ℕ
  pub mime : Option (List MimePattern)
  pub access : Option FileAccess

pub data FileKey : Type 0 where
  bucket max_size mime access : FileKey

abbrev pub file_keys : List (String × FileKey)
file_keys =
    ("bucket", FileKey.bucket)
    ∷ ("max_size", FileKey.max_size)
    ∷ ("mime", FileKey.mime)
    ∷ ("access", FileKey.access)
    ∷ []

unfoldable pub size_text : Token → String → Option String
unfolding unquote_string
size_text Token.integer_literal t = some t
size_text Token.string_literal t = some (unquote_string t)
size_text _ t = none

unfoldable pub size_value : SpannedToken → Parser ℕ
unfolding size_text parse_size_literal
size_value tok = do
  raw ←
      from_option (unexpected_token "integer or string size literal" (found_text tok) tok.span)
        (size_text tok.token tok.text)
  from_option (invalid_size_literal raw tok.span) (parse_size_literal raw)

-- `items.map(..).collect::<Result<_, _>>()?`
unfoldable pub mime_patterns : Span → List String → Parser (List MimePattern)
unfolding mime_parse
mime_patterns span [] = pure []
mime_patterns span (s ∷ ss) = do
  p ← from_result (λ e. core_schema_error e span) (mime_parse s)
  ps ← mime_patterns span ss
  pure (p ∷ ps)

unfoldable pub mime_list : Span → List String → Parser (List MimePattern)
unfolding mime_patterns
mime_list span [] = raise (invalid_file_param "mime list must not be empty" span)
mime_list span (s ∷ ss) = mime_patterns span (s ∷ ss)

abbrev pub bad_access : String → String
bad_access raw =
    String.◌++◌ "access must be \"presigned\" or \"proxied\", got \"" (String.◌++◌ raw "\"")

unfoldable pub file_value : SpannedToken → FileParams → FileKey → Parser FileParams
unfolding unquote_string size_value parse_string_list mime_list access_from_str
file_value key params FileKey.bucket = do
  tok ← expect_string_literal
  pure (record params { bucket = some (unquote_string tok.text) })
file_value key params FileKey.max_size = do
  tok ← next_token "integer or string size literal"
  bytes ← size_value tok
  pure (record params { max_size = some bytes })
file_value key params FileKey.mime = do
  items ← parse_string_list
  patterns ← mime_list key.span items
  pure (record params { mime = some patterns })
file_value key params FileKey.access = do
  tok ← expect_string_literal
  mode ←
      from_option (invalid_file_param (bad_access (unquote_string tok.text)) tok.span)
        (access_from_str (unquote_string tok.text))
  pure (record params { access = some mode })

abbrev pub unknown_key : String → String
unknown_key key =
    String.◌++◌ "unknown file parameter \""
      (String.◌++◌ key "\" (expected bucket, max_size, mime, access)")

unfoldable pub file_param : FileParams → Parser FileParams
unfolding file_value find_arm
file_param params = do
  key ← expect_ident "file parameter name"
  expect colon
  known ←
      from_option (invalid_file_param (unknown_key key.text) key.span) (find_arm key.text file_keys)
  file_value key params known

abbrev pub no_params : FileParams
no_params = record { bucket = none; max_size = none; mime = none; access = none }

abbrev pub or_presigned : Option FileAccess → FileAccess
or_presigned none = presigned
or_presigned (some a) = a

-- The checks behind the closing parenthesis, in their order.
unfoldable pub file_constraints : Span → FileParams → Parser FileConstraints
file_constraints span params = do
  place ← from_option (invalid_file_param "file requires `bucket` parameter" span) params.bucket
  branch (place == "") (raise (invalid_file_param "file bucket must not be empty" span)) (pure tt)
  size ← from_option (invalid_file_param "file requires `max_size` parameter" span) params.max_size
  branch (eqb size 0) (raise (invalid_file_param "file max_size must be greater than zero" span))
      (pure tt)
  allowed ← from_option (invalid_file_param "file requires `mime` parameter" span) params.mime
  pure (record {
    bucket = place;
    max_size_bytes = size;
    mime_allowlist = allowed;
    access = or_presigned params.access;
  })

module _ (eof : Span) where
  unfoldable pub parse_file_params : Parser FileConstraints
  unfolding file_param comma_separated file_constraints
  parse_file_params = do
    span ← current_span eof
    expect lparen
    empty ← peek_is rparen
    params ← branch empty (pure no_params) (comma_separated file_param no_params)
    expect rparen
    file_constraints span params
