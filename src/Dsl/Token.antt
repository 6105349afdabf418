-- ===== src/Dsl/Token.antt =====
-- crates/schema-forge-dsl/src/token.rs, and `SpannedToken` of lexer.rs and `Span` of error.rs.
use schemaforge.Prelude.{ℕ, String, Bool, true, false, eqb}

pub data Token : Type 0 where
  schema text rich_text integer float boolean date_time enum json composite file required : Token
  indexed default true_keyword false_keyword : Token
  lbrace rbrace lparen rparen lbracket rbracket colon comma arrow at : Token
  triple_string_literal string_literal integer_literal float_literal ident : Token

abbrev pub description : Token → String
description Token.schema = "'schema'"
description Token.text = "'text'"
description Token.rich_text = "'richtext'"
description Token.integer = "'integer'"
description Token.float = "'float'"
description Token.boolean = "'boolean'"
description Token.date_time = "'datetime'"
description Token.enum = "'enum'"
description Token.json = "'json'"
description Token.composite = "'composite'"
description Token.file = "'file'"
description Token.required = "'required'"
description Token.indexed = "'indexed'"
description Token.default = "'default'"
description Token.true_keyword = "'true'"
description Token.false_keyword = "'false'"
description Token.lbrace = "'{'"
description Token.rbrace = "'}'"
description Token.lparen = "'('"
description Token.rparen = "')'"
description Token.lbracket = "'['"
description Token.rbracket = "']'"
description Token.colon = "':'"
description Token.comma = "','"
description Token.arrow = "'->'"
description Token.at = "'@'"
description Token.string_literal = "string literal"
description Token.triple_string_literal = "triple-quoted string literal"
description Token.integer_literal = "integer literal"
description Token.float_literal = "float literal"
description Token.ident = "identifier"

-- The derived `PartialEq` of an enum without fields compares the variants' numbers.
abbrev pub discriminant : Token → ℕ
discriminant Token.schema = 0
discriminant Token.text = 1
discriminant Token.rich_text = 2
discriminant Token.integer = 3
discriminant Token.float = 4
discriminant Token.boolean = 5
discriminant Token.date_time = 6
discriminant Token.enum = 7
discriminant Token.json = 8
discriminant Token.composite = 9
discriminant Token.file = 10
discriminant Token.required = 11
discriminant Token.indexed = 12
discriminant Token.default = 13
discriminant Token.true_keyword = 14
discriminant Token.false_keyword = 15
discriminant Token.lbrace = 16
discriminant Token.rbrace = 17
discriminant Token.lparen = 18
discriminant Token.rparen = 19
discriminant Token.lbracket = 20
discriminant Token.rbracket = 21
discriminant Token.colon = 22
discriminant Token.comma = 23
discriminant Token.arrow = 24
discriminant Token.at = 25
discriminant Token.triple_string_literal = 26
discriminant Token.string_literal = 27
discriminant Token.integer_literal = 28
discriminant Token.float_literal = 29
discriminant Token.ident = 30

abbrev pub same_token : Token → Token → Bool
same_token a b = eqb (discriminant a) (discriminant b)

-- Byte offsets, the end excluded.
pub record Span : Type 0 where
  pub start : ℕ
  pub end : ℕ

pub record SpannedToken : Type 0 where
  pub token : Token
  pub span : Span
  pub text : String

abbrev pub is_contextual_ident : Token → Bool
is_contextual_ident Token.text = true
is_contextual_ident Token.integer = true
is_contextual_ident Token.float = true
is_contextual_ident Token.boolean = true
is_contextual_ident Token.date_time = true
is_contextual_ident Token.json = true
is_contextual_ident Token.default = true
is_contextual_ident Token.required = true
is_contextual_ident Token.indexed = true
is_contextual_ident Token.schema = true
is_contextual_ident _ = false
