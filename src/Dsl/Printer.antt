-- ===== src/Dsl/Printer.antt =====
-- crates/schema-forge-dsl/src/printer.rs. The text is built of pieces: the words that the lexer of
-- token.rs reads as one token each, with that token, and the blanks between them.
pub mod Notes
pub mod Schemas
use Prim.Native.String
use Prim.Native.Char.{code}
use schemaforge.Core.Names.{all_chars, is_ascii_digit}
use schemaforge.Prelude.{
  ◌&&◌, not, ◌==◌, eqb, if◌then◌else◌, ℕ, zero, suc, ◌+◌, String, Option, none, some, List, [], ◌∷◌,
  ◌++◌, Bool, true, false,
}
use schemaforge.Prelude.Int.{ℤ}
use schemaforge.Core.Constraints.{
  Cardinality, DefaultValue, FieldModifier, MimePattern, FileConstraints, IntegerConstraints,
}
use schemaforge.Core.FieldType.{FieldType, Fields, end, field, FieldAnnotation}
use schemaforge.Core.Mime.{mime_to_string}
use schemaforge.Core.Tokens.Match.{find_arm}
use schemaforge.Core.Tokens.Lifecycle.{access_as_str}
use schemaforge.Dsl.Token.{Token}
use schemaforge.Dsl.Decimal.{to_decimal, to_signed_decimal}

pub data Piece : Type 0 where
  word : Token → String → Piece
  blank : String → Piece

abbrev pub Pieces : Type 0
Pieces = List Piece

-- The text that the pieces make.
unfoldable pub spell : Pieces → String
spell [] = ""
spell (word token text ∷ pieces) = String.◌++◌ text (spell pieces)
spell (blank text ∷ pieces) = String.◌++◌ text (spell pieces)

-- The keywords of token.rs; every other name is an identifier.
abbrev pub keywords : List (String × Token)
keywords =
    ("schema", Token.schema)
    ∷ ("text", Token.text)
    ∷ ("richtext", Token.rich_text)
    ∷ ("integer", Token.integer)
    ∷ ("float", Token.float)
    ∷ ("boolean", Token.boolean)
    ∷ ("datetime", Token.date_time)
    ∷ ("enum", Token.enum)
    ∷ ("json", Token.json)
    ∷ ("composite", Token.composite)
    ∷ ("file", Token.file)
    ∷ ("required", Token.required)
    ∷ ("indexed", Token.indexed)
    ∷ ("default", Token.default)
    ∷ ("true", Token.true_keyword)
    ∷ ("false", Token.false_keyword)
    ∷ []

abbrev or_ident : Option Token → Token
or_ident none = Token.ident
or_ident (some t) = t

unfoldable pub name_token : String → Token
unfolding find_arm
name_token s = or_ident (find_arm s keywords)

unfoldable pub name : String → Piece
unfolding name_token
name s = word (name_token s) s

abbrev pub space : Piece
space = blank " "

abbrev pub lparen : Piece
lparen = word Token.lparen "("

abbrev pub rparen : Piece
rparen = word Token.rparen ")"

abbrev pub lbracket : Piece
lbracket = word Token.lbracket "["

abbrev pub rbracket : Piece
rbracket = word Token.rbracket "]"

abbrev pub colon : Piece
colon = word Token.colon ":"

abbrev pub comma : Piece
comma = word Token.comma ","

abbrev pub ident : String → Piece
ident s = word Token.ident s

-- The text between quotes, as it stands.
abbrev pub quote : String → String
quote s = String.◌∷◌ "\"" (String.◌++◌ s "\"")

abbrev pub quoted : String → Piece
quoted s = word Token.string_literal (quote s)

abbrev pub integer : String → Piece
integer s = word Token.integer_literal s

-- The items of a list behind its first one.
abbrev pub more_items : {A : Type 0} → (A → Pieces) → List A → Pieces
more_items print [] = []
more_items print (x ∷ xs) = comma ∷ space ∷ print x ++ more_items print xs

-- `for (i, x) in xs { if i > 0 { ", " } .. }`
abbrev pub separated : {A : Type 0} → (A → Pieces) → List A → Pieces
separated print [] = []
separated print (x ∷ xs) = print x ++ more_items print xs

abbrev pub quoted_item : String → Pieces
quoted_item s = quoted s ∷ []

abbrev pub print_strings : List String → Pieces
print_strings items = separated quoted_item items

-- `name: ["a", "b"]`
abbrev pub print_named_string_list : String → List String → Pieces
print_named_string_list key list =
    ident key ∷ colon ∷ space ∷ lbracket ∷ print_strings list ++ rbracket ∷ []

-- `(key: n)` where there is a bound
unfoldable pub print_bound : String → Option ℕ → Pieces
unfolding to_decimal
print_bound key none = []
print_bound key (some n) = lparen ∷ ident key ∷ colon ∷ space ∷ integer (to_decimal n) ∷ rparen ∷ []

unfoldable pub param : String → ℤ → Pieces
unfolding to_signed_decimal
param key z = ident key ∷ colon ∷ space ∷ integer (to_signed_decimal z) ∷ []

-- `build_integer_params`, joined by commas and put between parentheses where there are any
unfoldable pub print_range : Option ℤ → Option ℤ → Pieces
unfolding param
print_range none none = []
print_range (some min) none = lparen ∷ param "min" min ++ rparen ∷ []
print_range none (some max) = lparen ∷ param "max" max ++ rparen ∷ []
print_range (some min) (some max) =
    lparen ∷ param "min" min ++ comma ∷ space ∷ param "max" max ++ rparen ∷ []

unfoldable pub print_mime : MimePattern → Pieces
unfolding mime_to_string
print_mime p = quoted (mime_to_string p) ∷ []

unfoldable pub print_file : FileConstraints → Pieces
unfolding print_mime to_decimal
print_file c =
    lparen
      ∷ ident "bucket"
      ∷ colon
      ∷ space
      ∷ quoted c.bucket
      ∷ comma
      ∷ space
      ∷ ident "max_size"
      ∷ colon
      ∷ space
      ∷ integer (to_decimal c.max_size_bytes)
      ∷ comma
      ∷ space
      ∷ ident "mime"
      ∷ colon
      ∷ space
      ∷ lbracket
      ∷ separated print_mime c.mime_allowlist
    ++ rbracket
      ∷ comma
      ∷ space
      ∷ ident "access"
      ∷ colon
      ∷ space
      ∷ quoted (access_as_str c.access)
      ∷ rparen
      ∷ []

abbrev pub indent : ℕ → String
indent zero = ""
indent (suc depth) = String.◌++◌ "    " (indent depth)

abbrev pub print_many : Cardinality → Pieces
print_many Cardinality.one = []
print_many Cardinality.many = lbracket ∷ rbracket ∷ []

abbrev pub boolean_word : Bool → Piece
boolean_word true = word Token.true_keyword "true"
boolean_word false = word Token.false_keyword "false"

-- Digits, at least one.
abbrev pub some_digits : String → Bool
some_digits s = not (s == "") && all_chars is_ascii_digit s

-- Digits, a point and digits; `seen` is whether there was a digit.
unfoldable pub digits_and_point : Bool → String → Bool
digits_and_point seen String.[] = false
digits_and_point seen (String.◌∷◌ c s) =
    let more = digits_and_point true s in
    if is_ascii_digit c then more else if eqb (code c) b'.' then seen && some_digits s else false

abbrev pub without_minus : String → String
without_minus String.[] = String.[]
without_minus (String.◌∷◌ c s) = if eqb (code c) b'-' then s else String.◌∷◌ c s

-- `-?[0-9]+\.[0-9]+` of the lexer
unfoldable pub is_float_literal : String → Bool
unfolding digits_and_point
is_float_literal s = digits_and_point false (without_minus s)

-- `-?[0-9]+`
unfoldable pub is_integer_literal : String → Bool
is_integer_literal s = some_digits (without_minus s)

-- The token of a float's text. Only one with a point is a float to the lexer. Of the other texts that
-- `parse::<f64>` reads, `inf` and `NaN` are identifiers; those that the lexer splits or refuses, such as
-- `1e5`, have no token of their own and are given as identifiers too: the parser takes neither.
unfoldable pub float_token : String → Token
unfolding is_float_literal is_integer_literal
float_token s =
    if is_float_literal s
    then Token.float_literal
    else if is_integer_literal s
    then Token.integer_literal
    else Token.ident

unfoldable pub print_default_value : DefaultValue → Piece
unfolding to_signed_decimal float_token
print_default_value (DefaultValue.string s) = quoted s
print_default_value (DefaultValue.integer z) = integer (to_signed_decimal z)
print_default_value (DefaultValue.float s) = word (float_token s) s
print_default_value (DefaultValue.boolean b) = boolean_word b

unfoldable pub print_modifier : FieldModifier → Pieces
unfolding print_default_value
print_modifier FieldModifier.required = word Token.required "required" ∷ []
print_modifier FieldModifier.indexed = word Token.indexed "indexed" ∷ []
print_modifier (FieldModifier.default value) =
    word Token.default "default" ∷ lparen ∷ print_default_value value ∷ rparen ∷ []

abbrev pub joined : {A : Type 0} → (A → Pieces) → List A → Pieces
joined print [] = []
joined print (x ∷ xs) = print x ++ joined print xs

-- A space before each.
abbrev pub spaced : {A : Type 0} → (A → Pieces) → List A → Pieces
spaced print xs = joined (λ x. space ∷ print x) xs
