-- ===== src/Dsl/Fields/Notes.antt =====
-- `parse_field_annotation` and `parse_enum_colors_annotation` of crates/schema-forge-dsl/src/parser.rs.
use Prim.Native.Nat.{Ordering}
use Prim.Native.String
use schemaforge.Prelude.{String, Option, none, some, List, [], ◌∷◌, any, ◌==◌, if◌then◌else◌}
use schemaforge.Core.Constraints.{EnumVariants}
use schemaforge.Core.FieldType.{FieldType, FieldAnnotation}
use schemaforge.Core.Tokens.Match.{find_arm}
use schemaforge.Core.Tokens.Display.{
  EnumColor, widget_from_str, format_from_str, color_from_str, list_hint_from_str,
}
use schemaforge.Dsl.Token.{Token, Span, SpannedToken, same_token, lparen, rparen, at}
use schemaforge.Dsl.Error.{
  unknown_annotation, unknown_widget_type, unknown_format_type, unknown_list_hint,
  enum_colors_on_non_enum, empty_enum_colors, unknown_enum_colors_variant,
  duplicate_enum_colors_variant, unknown_enum_color,
}
use schemaforge.Dsl.Literals.{unquote_string}
use schemaforge.Dsl.Outcome.{Parser, pure, raise, ◌>>=◌, ◌>>◌, branch}
use schemaforge.Dsl.Cursor.{
  expect, expect_ident, expect_string_literal, current_span, from_option, repeated,
}
use schemaforge.Dsl.Params.{
  Params, parse_named_params, parse_named_string_lists, extract_string_list,
}

abbrev pub Colors : Type 0
Colors = List (String × EnumColor)

-- `BTreeMap::insert`; the entries stand in the order of their keys.
unfoldable pub insert_color : String → EnumColor → Colors → Colors
insert_color key color [] = (key, color) ∷ []
insert_color key color ((k, c) ∷ rest) =
    let later = insert_color key color rest in
    elim (String.compare key k) [
      | Ordering.lt ↦ (key, color) ∷ (k, c) ∷ rest
      | Ordering.eq ↦ (key, color) ∷ rest
      | Ordering.gt ↦ (k, c) ∷ later
    ]

-- The loop over the parameters: the variants of the type, the names seen, the colours so far.
unfoldable pub enum_colors_loop :
    Span → EnumVariants → List String → Colors → Params → Parser Colors
unfolding insert_color color_from_str
enum_colors_loop span variants seen colors [] = pure colors
enum_colors_loop span variants seen colors ((name, token) ∷ params) = do
  branch (any (λ v. v == name) variants) (pure tt)
      (raise (unknown_enum_colors_variant name variants span))
  branch (any (λ v. v == name) seen) (raise (duplicate_enum_colors_variant name span)) (pure tt)
  color ← from_option (unknown_enum_color token span) (color_from_str token)
  enum_colors_loop span variants (name ∷ seen) (insert_color name color colors) params

unfoldable pub enum_colors_of : Span → Span → EnumVariants → Params → Parser FieldAnnotation
unfolding enum_colors_loop
enum_colors_of whole span variants [] = raise (empty_enum_colors whole)
enum_colors_of whole span variants (p ∷ params) = do
  colors ← enum_colors_loop span variants [] [] (p ∷ params)
  pure (FieldAnnotation.enum_colors colors)

module _ (eof : Span) where
  unfoldable pub parse_enum_colors_annotation : FieldType → Span → Parser FieldAnnotation
  unfolding parse_named_params enum_colors_of
  parse_enum_colors_annotation (FieldType.enum variants) span = do
    expect lparen
    opened ← current_span eof
    params ← parse_named_params
    closed ← current_span eof
    expect rparen
    enum_colors_of (record { start = opened.start; end = closed.end }) span variants params
  parse_enum_colors_annotation _ span = raise (enum_colors_on_non_enum span)

pub data NoteName : Type 0 where
  owner hidden field_access widget kanban_column list enum_colors format : NoteName

abbrev pub note_names : List (String × NoteName)
note_names =
    ("owner", NoteName.owner)
    ∷ ("hidden", NoteName.hidden)
    ∷ ("field_access", NoteName.field_access)
    ∷ ("widget", NoteName.widget)
    ∷ ("kanban_column", NoteName.kanban_column)
    ∷ ("list", NoteName.list)
    ∷ ("enum_colors", NoteName.enum_colors)
    ∷ ("format", NoteName.format)
    ∷ []

module _ (eof : Span) (field_type : FieldType) where
  unfoldable pub note_body : SpannedToken → NoteName → Parser FieldAnnotation
  unfolding parse_named_string_lists extract_string_list unquote_string widget_from_str
      list_hint_from_str format_from_str parse_enum_colors_annotation
  note_body tok NoteName.owner = pure FieldAnnotation.owner
  note_body tok NoteName.hidden = pure FieldAnnotation.hidden
  note_body tok NoteName.field_access = do
    expect lparen
    lists ← parse_named_string_lists
    expect rparen
    pure (
        FieldAnnotation.field_access (extract_string_list lists "read")
          (extract_string_list lists "write"))
  note_body tok NoteName.widget = do
    expect lparen
    value ← expect_string_literal
    kind ←
        from_option (unknown_widget_type (unquote_string value.text) value.span)
          (widget_from_str (unquote_string value.text))
    expect rparen
    pure (FieldAnnotation.widget kind)
  note_body tok NoteName.kanban_column = pure FieldAnnotation.kanban_column
  note_body tok NoteName.list = do
    expect lparen
    value ← expect_ident "list hint (primary|column|hidden)"
    hint ← from_option (unknown_list_hint value.text value.span) (list_hint_from_str value.text)
    expect rparen
    pure (FieldAnnotation.list hint)
  note_body tok NoteName.enum_colors = parse_enum_colors_annotation eof field_type tok.span
  note_body tok NoteName.format = do
    expect lparen
    value ← expect_string_literal
    kind ←
        from_option (unknown_format_type (unquote_string value.text) value.span)
          (format_from_str (unquote_string value.text))
    expect rparen
    pure (FieldAnnotation.format kind)

  unfoldable pub parse_field_annotation : Parser FieldAnnotation
  unfolding note_body find_arm
  parse_field_annotation = do
    expect at
    tok ← expect_ident "field annotation name"
    name ← from_option (unknown_annotation tok.text tok.span) (find_arm tok.text note_names)
    note_body tok name

  unfoldable pub note_before : Token → Option (Parser FieldAnnotation)
  unfolding parse_field_annotation
  note_before t = if same_token t at then some parse_field_annotation else none

  unfoldable pub parse_field_annotations : Parser (List FieldAnnotation)
  unfolding note_before repeated
  parse_field_annotations = repeated note_before
