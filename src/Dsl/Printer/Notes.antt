-- ===== src/Dsl/Printer/Notes.antt =====
-- The annotations of crates/schema-forge-dsl/src/printer.rs.
use Prim.Native.String
use schemaforge.Prelude.{String, Bool, true, false, Option, none, some, List, [], ◌∷◌, ◌++◌, keep}
use schemaforge.Core.FieldType.{FieldAnnotation}
use schemaforge.Core.Annotation.{Annotation, TenantKind}
use schemaforge.Core.Tokens.Display.{
  EnumColor, widget_as_str, format_as_str, color_as_str, list_hint_as_str,
}
use schemaforge.Core.Tokens.Lifecycle.{hook_as_str}
use schemaforge.Dsl.Token.{Token}
use schemaforge.Dsl.Decimal.{to_decimal}
use schemaforge.Dsl.Printer.{
  Piece, Pieces, word, name, space, lparen, rparen, colon, comma, ident, quoted, integer, separated,
  print_named_string_list,
}

abbrev pub at : Piece
at = word Token.at "@"

abbrev pub print_pair : String × List String → Pieces
print_pair (key, items) = print_named_string_list key items

abbrev pub is_filled : String × List String → Bool
is_filled (key, []) = false
is_filled (key, x ∷ xs) = true

-- The lists that are not empty, between parentheses.
abbrev pub print_lists : List (String × List String) → Pieces
print_lists lists = lparen ∷ separated print_pair (keep is_filled lists) ++ rparen ∷ []

abbrev pub print_color : String × EnumColor → Pieces
print_color (variant, color) = name variant ∷ colon ∷ space ∷ quoted (color_as_str color) ∷ []

unfoldable pub print_field_annotation : FieldAnnotation → Pieces
unfolding name
print_field_annotation FieldAnnotation.owner = at ∷ ident "owner" ∷ []
print_field_annotation (FieldAnnotation.field_access read write) =
    at ∷ ident "field_access" ∷ print_lists (("read", read) ∷ ("write", write) ∷ [])
print_field_annotation (FieldAnnotation.widget kind) =
    at ∷ ident "widget" ∷ lparen ∷ quoted (widget_as_str kind) ∷ rparen ∷ []
print_field_annotation FieldAnnotation.kanban_column = at ∷ ident "kanban_column" ∷ []
print_field_annotation (FieldAnnotation.format kind) =
    at ∷ ident "format" ∷ lparen ∷ quoted (format_as_str kind) ∷ rparen ∷ []
print_field_annotation (FieldAnnotation.enum_colors colors) =
    at ∷ ident "enum_colors" ∷ lparen ∷ separated print_color colors ++ rparen ∷ []
print_field_annotation (FieldAnnotation.list hint) =
    at ∷ ident "list" ∷ lparen ∷ ident (list_hint_as_str hint) ∷ rparen ∷ []
print_field_annotation FieldAnnotation.hidden = at ∷ ident "hidden" ∷ []

-- `, key: "value"`
abbrev pub print_scalar : String → Option String → Pieces
print_scalar key none = []
print_scalar key (some value) = comma ∷ space ∷ ident key ∷ colon ∷ space ∷ quoted value ∷ []

-- `key: "value"` as the first parameter
abbrev pub print_first : String → Option String → Pieces
print_first key none = []
print_first key (some value) = ident key ∷ colon ∷ space ∷ quoted value ∷ []

-- The parameters of a webhook that has events or an address.
abbrev pub print_webhook : List String → Option String → Option String → Pieces
print_webhook [] none secret = []
print_webhook [] (some url) secret =
    lparen ∷ print_first "url" (some url) ++ print_scalar "secret" secret ++ rparen ∷ []
print_webhook (e ∷ events) url secret =
    lparen ∷ print_named_string_list "events" (e ∷ events)
    ++ print_scalar "url" url
    ++ print_scalar "secret" secret
    ++ rparen ∷ []

abbrev pub print_tenant : TenantKind → Pieces
print_tenant TenantKind.root = ident "root" ∷ []
print_tenant (TenantKind.child parent) = ident "parent" ∷ colon ∷ space ∷ quoted parent ∷ []

abbrev pub triple_quote : String → String
triple_quote s = String.◌++◌ "\"\"\"" (String.◌++◌ s "\"\"\"")

unfoldable pub print_annotation : Annotation → Pieces
unfolding to_decimal
print_annotation (Annotation.version v) =
    at ∷ ident "version" ∷ lparen ∷ integer (to_decimal v) ∷ rparen ∷ []
print_annotation (Annotation.display field) =
    at ∷ ident "display" ∷ lparen ∷ quoted field ∷ rparen ∷ []
print_annotation Annotation.system = at ∷ ident "system" ∷ []
print_annotation (Annotation.access read write delete cross_tenant_read) =
    at
    ∷ ident "access"
    ∷ print_lists (
        ("read", read)
        ∷ ("write", write)
        ∷ ("delete", delete)
        ∷ ("cross_tenant_read", cross_tenant_read)
        ∷ [])
print_annotation (Annotation.tenant kind) =
    at ∷ ident "tenant" ∷ lparen ∷ print_tenant kind ++ rparen ∷ []
print_annotation (Annotation.dashboard widgets layout group_by sort_default) =
    at ∷ ident "dashboard" ∷ lparen ∷ print_named_string_list "widgets" widgets
    ++ print_scalar "layout" layout
    ++ print_scalar "group_by" group_by
    ++ print_scalar "sort_default" sort_default
    ++ rparen ∷ []
print_annotation (Annotation.webhook events url secret) =
    at ∷ ident "webhook" ∷ print_webhook events url secret
print_annotation (Annotation.hook event intent) =
    at
    ∷ ident "hook"
    ∷ lparen
    ∷ ident (hook_as_str event)
    ∷ rparen
    ∷ space
    ∷ word Token.triple_string_literal (triple_quote intent)
    ∷ []
