-- ===== src/Dsl/Good/Notes.antt =====
-- The field annotations of parser.rs: each run ends, with a good annotation or an error.
use Prim.Native.Nat.{Ordering}
use Prim.Native.String
use mathlib.Core.Path.{subst}
use schemaforge.Prelude.{
  String, Bool, true, false, some, List, [], ◌∷◌, ◌≡◌, ◌≢◌, refl, any, ◌==◌, All, Bool-cases, inl,
  inr,
}
use schemaforge.Core.Constraints.{EnumVariants}
use schemaforge.Core.FieldType.{FieldType, FieldAnnotation}
use schemaforge.Core.Tokens.Match.{find_arm}
use schemaforge.Core.Tokens.Display.{
  EnumColor, widget_from_str, format_from_str, color_from_str, list_hint_from_str,
}
use schemaforge.Dsl.Token.{Token, Span, SpannedToken, same_token, at}
use schemaforge.Dsl.Error.{DslError}
use schemaforge.Dsl.Literals.{unquote_string}
use schemaforge.Dsl.Outcome.{Parser, pure, raise, branch}
use schemaforge.Dsl.Cursor.Total.{
  Total, Total-then, Total-seq, Total-weak, Total-pure, Total-raise, Total-current_span,
  Total-expect_that, Total-from_option, Total-repeated, Total-loose, some-injective,
}
use schemaforge.Dsl.Params.{Params}
use schemaforge.Dsl.Fields.Notes.{
  Colors, insert_color, enum_colors_loop, enum_colors_of, parse_enum_colors_annotation, NoteName,
  note_names, note_body, parse_field_annotation, note_before, parse_field_annotations,
}
use schemaforge.Dsl.Good.{IsVariant, GoodNote}
use schemaforge.Dsl.Good.Params.{Total-parse_named_params, Total-parse_named_string_lists}
use schemaforge.Dsl.Good.File.{Total-check}

module _ (P : String → Type 0) (key : String) (color : EnumColor) where
  insert_color-All :
      (colors : Colors)
      → P key
      → All (λ entry. P entry.0) colors
      → All (λ entry. P entry.0) (insert_color key color colors)
  unfolding insert_color
  insert_color-All [] p h = (p, tt)
  insert_color-All ((k, c) ∷ rest) p h =
      by_order (String.compare key k) (insert_color-All rest p h.1)
    where
      by_order :
          (o : Ordering)
          → All (λ entry. P entry.0) (insert_color key color rest)
          → All
              (λ entry. P entry.0)
              (elim o [
                | Ordering.lt ↦ (key, color) ∷ (k, c) ∷ rest
                | Ordering.eq ↦ (key, color) ∷ rest
                | Ordering.gt ↦ (k, c) ∷ insert_color key color rest
              ])
      by_order Ordering.lt later = (p, h)
      by_order Ordering.eq later = (p, h.1)
      by_order Ordering.gt later = (h.0, later)

insert_color-ne-nil :
    (key : String) (color : EnumColor) (colors : Colors) → insert_color key color colors ≢ []
unfolding insert_color
insert_color-ne-nil key color [] = λ e. cc e
insert_color-ne-nil key color ((k, c) ∷ rest) = by_order (String.compare key k)
  where
    by_order :
        (o : Ordering)
        → elim o as (λ _. Colors) [
          | Ordering.lt ↦ (key, color) ∷ (k, c) ∷ rest
          | Ordering.eq ↦ (key, color) ∷ rest
          | Ordering.gt ↦ (k, c) ∷ insert_color key color rest
        ]
          ≢ []
    by_order Ordering.lt = λ e. cc e
    by_order Ordering.eq = λ e. cc e
    by_order Ordering.gt = λ e. cc e

-- a check of the code that raises an error where a test fails
Total-need : (b : Bool) (e : DslError) → Total 0 0 (λ x. b ≡ true) (branch b (pure tt) (raise e))
Total-need true e = Total-pure refl
Total-need false e = Total-raise

module _ (span : Span) (variants : EnumVariants) where
  abbrev Entries : Colors → Type 0
  Entries colors = All (λ entry. IsVariant (FieldType.enum variants) entry.0) colors

  Total-enum_colors_loop :
      (seen : List String) (colors : Colors) (params : Params)
      → Entries colors
      → (params ≡ [] → colors ≢ [])
      → Total 0 0 (λ cs. (cs ≢ []) × Entries cs) (enum_colors_loop span variants seen colors params)
  unfolding enum_colors_loop
  Total-enum_colors_loop seen colors [] h start = Total-pure (start refl, h)
  Total-enum_colors_loop seen colors ((name, token) ∷ params) h start =
      Total-seq (Total-need (any (λ v. v == name) variants) _) λ x known.
        Total-seq (Total-check (any (λ v. v == name) seen) _) λ y fresh.
          Total-seq (Total-from_option _ (color_from_str token) λ c e. tt) λ color z.
            Total-enum_colors_loop (name ∷ seen) (insert_color name color colors) params
              (insert_color-All _ name color colors known h)
              (λ e. insert_color-ne-nil name color colors)

  Total-enum_colors_of :
      (whole : Span) (params : Params)
      → Total 0 0 (GoodNote (FieldType.enum variants)) (enum_colors_of whole span variants params)
  unfolding enum_colors_of
  Total-enum_colors_of whole [] = Total-raise
  Total-enum_colors_of whole (p ∷ params) =
      Total-seq (Total-enum_colors_loop [] [] (p ∷ params) tt (λ e. cc e))
        λ colors good. Total-pure good

module _ (eof : Span) where
  Total-parse_enum_colors_annotation :
      (t : FieldType) (span : Span)
      → Total 0 0 (GoodNote t) (parse_enum_colors_annotation eof t span)
  unfolding parse_enum_colors_annotation
  Total-parse_enum_colors_annotation (FieldType.enum variants) span =
      Total-seq (Total-weak (Total-expect_that _ _)) λ tok x.
        Total-seq (Total-current_span eof) λ opened y.
          Total-seq Total-parse_named_params λ params z.
            Total-seq (Total-current_span eof) λ closed w.
              Total-seq (Total-weak (Total-expect_that _ _))
                λ close v. Total-enum_colors_of span variants _ params
  Total-parse_enum_colors_annotation _ span = Total-raise

  module _ (t : FieldType) where
    Total-note_body :
        (tok : SpannedToken) (n : NoteName) → Total 0 0 (GoodNote t) (note_body eof t tok n)
    unfolding note_body
    Total-note_body tok NoteName.owner = Total-pure tt
    Total-note_body tok NoteName.hidden = Total-pure tt
    Total-note_body tok NoteName.field_access =
        Total-seq (Total-weak (Total-expect_that _ _)) λ opened x.
          Total-seq Total-parse_named_string_lists
            λ lists y. Total-seq (Total-weak (Total-expect_that _ _)) λ close z. Total-pure tt
    Total-note_body tok NoteName.widget = Total-seq (Total-weak (Total-expect_that _ _)) λ opened x.
        Total-seq (Total-weak (Total-expect_that _ _)) λ value y.
          Total-seq (Total-from_option _ (widget_from_str (unquote_string value.text)) λ c e. tt)
            λ kind z. Total-seq (Total-weak (Total-expect_that _ _)) λ close w. Total-pure tt
    Total-note_body tok NoteName.kanban_column = Total-pure tt
    Total-note_body tok NoteName.list = Total-seq (Total-weak (Total-expect_that _ _)) λ opened x.
        Total-seq (Total-weak (Total-expect_that _ _)) λ value y.
          Total-seq (Total-from_option _ (list_hint_from_str value.text) λ c e. tt)
            λ kind z. Total-seq (Total-weak (Total-expect_that _ _)) λ close w. Total-pure tt
    Total-note_body tok NoteName.enum_colors = Total-parse_enum_colors_annotation t tok.span
    Total-note_body tok NoteName.format = Total-seq (Total-weak (Total-expect_that _ _)) λ opened x.
        Total-seq (Total-weak (Total-expect_that _ _)) λ value y.
          Total-seq (Total-from_option _ (format_from_str (unquote_string value.text)) λ c e. tt)
            λ kind z. Total-seq (Total-weak (Total-expect_that _ _)) λ close w. Total-pure tt

    Total-parse_field_annotation : Total 1 1 (GoodNote t) (parse_field_annotation eof t)
    unfolding parse_field_annotation
    Total-parse_field_annotation = Total-then (Total-expect_that _ _) λ a x.
        Total-seq (Total-weak (Total-expect_that _ _)) λ tok y.
          Total-seq (Total-from_option _ (find_arm tok.text note_names) λ c e. tt)
            λ name z. Total-note_body tok name

    note_before-Total :
        (token : Token) (p : Parser FieldAnnotation)
        → note_before eof t token ≡ some p
        → Total 1 1 (GoodNote t) p
    unfolding note_before
    note_before-Total token p h = elim (Bool-cases (same_token token at)) [
      | inl e ↦
          subst (Total 1 1 (GoodNote t)) (some-injective _ p (rw e at h))
            Total-parse_field_annotation
      | inr e ↦ cc (rw e at h)
    ]

    pub Total-parse_field_annotations :
        Total 0 0 (λ xs. All (GoodNote t) xs) (parse_field_annotations eof t)
    unfolding parse_field_annotations
    Total-parse_field_annotations =
        Total-loose (Total-repeated (note_before eof t) note_before-Total)
