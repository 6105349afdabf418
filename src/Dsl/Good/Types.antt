-- ===== src/Dsl/Good/Types.antt =====
-- The types of parser.rs: each run ends, with a good type or an error.
use mathlib.Core.Path.{subst}
use schemaforge.Prelude.{
  Option-cases, any, ◌==◌, if◌then◌else◌, arith, ℕ, ◌^◌, String, Bool, true, false, Option, none,
  some, List, [], ◌∷◌, ◌≡◌, refl, All, inl, inr, Result, ok, err,
}
use schemaforge.Prelude.Int.{ℤ, ltb_ℤ, ◌≤ℤ◌}
use schemaforge.Core.Error.{SchemaError, invalid_integer_range}
use schemaforge.Core.Names.{schema_name_new}
use schemaforge.Core.Constraints.{
  TextConstraints, IntegerConstraints, FloatConstraints, with_range, enum_variants_new,
}
use schemaforge.Core.Constraints.Variants.{GoodVariants, itself}
use schemaforge.Core.Schema.{FieldDefinition, find_duplicate, field_key}
use schemaforge.Core.Schema.Unique.{Distinct, find_duplicate-Distinct}
use schemaforge.Core.Tokens.Match.{find_arm}
use schemaforge.Dsl.Token.{Token, Span, SpannedToken, lbracket, lparen, rparen}
use schemaforge.Dsl.Error.{DslError}
use schemaforge.Dsl.Literals.{parse_unsigned, parse_signed, unquote_string}
use schemaforge.Dsl.Literals.Bounds.{parse_unsigned_lt, parse_signed-FitsI64}
use schemaforge.Dsl.Outcome.{Parser}
use schemaforge.Dsl.Cursor.Total.{
  Total, Upto, Upto-seq, Upto-Total, Upto-branch, Any, Total-then, Total-seq, Total-weak,
  Total-pure, Total-raise, Total-branch, Total-peek_is, Total-current_span, Total-skip,
  Total-expect_that, Total-next_token, Total-comma_separated, Total-from_option, Total-from_result,
}
use schemaforge.Dsl.Types.{
  parsed_param, u32_param, parse_text_params, parse_float_params, i64_param, extract_i64_param,
  integer_range, parse_integer_params, enum_variant, parse_enum_type, primitive_type,
  parse_primitive_type, brackets, parse_relation_type, to_fields, no_duplicate,
  parse_composite_type, parse_primitive_or_array, parse_type,
}
use schemaforge.Dsl.Good.{
  Below, Fits, GoodInteger, GoodType, GoodFields, GoodField, GoodSchemaName, names_of,
}
use schemaforge.Dsl.Good.Names.{schema_name_new-GoodSchemaName, enum_variants_new-GoodVariants}
use schemaforge.Dsl.Good.Params.{Total-parse_named_params}
use schemaforge.Dsl.Good.File.{Total-parse_file_params}

ok-injective : {A E : Type 0} (a b : A) → ◌≡◌ {A = Result A E} (ok a) (ok b) → a ≡ b
ok-injective a b h = cc h

Total-parsed_param :
    {A : Type 0} {P : Option A → Type 0} (e : DslError) (parse : String → Option A)
    (o : Option String)
    → P none
    → ((v : String) (a : A) → parse v ≡ some a → P (some a))
    → Total 0 0 P (parsed_param e parse o)
Total-parsed_param e parse none h k = Total-pure h
Total-parsed_param {P} e parse (some v) h k =
    Total-seq (Total-from_option {P = λ a. P (some a)} _ (parse v) (k v)) λ a x. Total-pure x

module _ (eof : Span) where
  Total-u32_param : (key message : String) → Total 0 0 (Below (2 ^ 32)) (u32_param eof key message)
  unfolding u32_param
  Total-u32_param key message = Total-seq Total-skip λ s x.
      Total-seq Total-parse_named_params λ params y.
        Total-seq (Total-weak (Total-expect_that _ _)) λ close z.
          Total-seq (Total-current_span eof) λ span w.
            Total-parsed_param _ (parse_unsigned 32) (find_arm key params) tt (parse_unsigned_lt 32)

  Total-parse_text_params :
      Total 0 0 (λ c. Below (2 ^ 32) (TextConstraints.max_length c)) (parse_text_params eof)
  unfolding parse_text_params
  Total-parse_text_params = Total-seq (Total-peek_is lparen) λ given x.
      Total-branch given
        (λ e. Total-seq (Total-u32_param "max" "max parameter") λ max fits. Total-pure fits)
        (λ e. Total-pure tt)

  Total-parse_float_params :
      Total 0 0 (λ c. Below (2 ^ 32) (FloatConstraints.precision c)) (parse_float_params eof)
  unfolding parse_float_params
  Total-parse_float_params = Total-seq (Total-peek_is lparen) λ given x.
      Total-branch given
        (λ e.
          Total-seq (Total-u32_param "precision" "precision parameter") λ p fits. Total-pure fits)
        (λ e. Total-pure tt)

Total-i64_param : (span : Span) (o : Option String) → Total 0 0 Fits (i64_param span o)
unfolding i64_param
Total-i64_param span none = Total-pure tt
Total-i64_param span (some v) = Total-parsed_param _ parse_signed (some v) tt parse_signed-FitsI64

in_order : (min max : ℤ) → ltb_ℤ max min ≡ false → min ≤ℤ max
in_order min max h = ground arith

kept_range :
    (min max : ℤ) (b : Bool) (c : IntegerConstraints)
    → ltb_ℤ max min ≡ b
    → Fits (some min)
    → Fits (some max)
    → ◌≡◌ {A = Result IntegerConstraints SchemaError}
        (if b
          then err (invalid_integer_range min max)
          else ok (record { min = some min; max = some max }))
        (ok c)
    → GoodInteger c
kept_range min max true c e a b h = cc h
kept_range min max false c e a b h =
    subst GoodInteger (ok-injective _ c h) (a, b, in_order min max e)

with_range-GoodInteger :
    (min max : ℤ) (c : IntegerConstraints)
    → with_range min max ≡ ok c
    → Fits (some min)
    → Fits (some max)
    → GoodInteger c
unfolding with_range
with_range-GoodInteger min max c h a b = kept_range min max (ltb_ℤ max min) c refl a b h

Total-integer_range :
    (span : Span) (min max : Option ℤ)
    → Fits min
    → Fits max
    → Total 0 0 GoodInteger (integer_range span min max)
unfolding integer_range
Total-integer_range span (some min) (some max) a b =
    Total-branch (ltb_ℤ max min) (λ e. Total-raise)
      (λ e. Total-from_result _ (with_range min max) λ c h. with_range-GoodInteger min max c h a b)
Total-integer_range span (some min) none a b = Total-pure (a, tt, tt)
Total-integer_range span none (some max) a b = Total-pure (tt, b, tt)
Total-integer_range span none none a b = Total-pure (tt, tt, tt)

module _ (eof : Span) where
  Total-parse_integer_params : Total 0 0 GoodInteger (parse_integer_params eof)
  unfolding parse_integer_params extract_i64_param
  Total-parse_integer_params = Total-seq (Total-peek_is lparen) λ given x.
      Total-branch given
        (λ e. Total-seq (Total-current_span eof) λ span y. Total-seq Total-skip λ s z.
          Total-seq Total-parse_named_params λ params w.
            Total-seq (Total-weak (Total-expect_that _ _)) λ close v.
              Total-seq (Total-i64_param span (find_arm "min" params)) λ min a.
                Total-seq (Total-i64_param span (find_arm "max" params))
                  λ max b. Total-integer_range span min max a b)
        (λ e. Total-pure (tt, tt, tt))

  Total-enum_variant : (variants : List String) → Total 1 1 Any (enum_variant variants)
  unfolding enum_variant
  Total-enum_variant variants = Total-then (Total-expect_that _ _) λ tok x.
      Total-branch (any (λ v. v == unquote_string tok.text) variants) (λ e. Total-raise)
        (λ e. Total-pure tt)

  Total-parse_enum_type : Total 0 0 GoodType (parse_enum_type eof)
  unfolding parse_enum_type GoodType
  Total-parse_enum_type = Total-seq (Total-current_span eof) λ span x.
      Total-seq (Total-weak (Total-expect_that _ _)) λ tok y.
        Total-seq (Total-peek_is rparen) λ empty z.
          Total-branch empty
            (λ e. Total-seq (Total-weak (Total-next_token _)) λ close w. Total-raise)
            (λ e.
              Total-seq (Total-weak (Total-comma_separated (λ s i. Total-enum_variant s) [] tt))
                λ variants w. Total-seq (Total-weak (Total-expect_that _ _)) λ close v.
                  Total-seq
                    (Total-from_result {P = GoodVariants} _ (enum_variants_new variants)
                      λ vs h. enum_variants_new-GoodVariants variants vs h)
                    λ checked good. Total-pure good)

  Total-primitive_type :
      (tok : SpannedToken) (t : Token) → Total 0 0 GoodType (primitive_type eof tok t)
  unfolding primitive_type GoodType
  Total-primitive_type tok Token.text =
      Total-seq (Total-parse_text_params eof) λ c fits. Total-pure fits
  Total-primitive_type tok Token.rich_text = Total-pure tt
  Total-primitive_type tok Token.integer =
      Total-seq Total-parse_integer_params λ c good. Total-pure good
  Total-primitive_type tok Token.float =
      Total-seq (Total-parse_float_params eof) λ c fits. Total-pure fits
  Total-primitive_type tok Token.boolean = Total-pure tt
  Total-primitive_type tok Token.date_time = Total-pure tt
  Total-primitive_type tok Token.enum = Total-parse_enum_type
  Total-primitive_type tok Token.json = Total-pure tt
  Total-primitive_type tok Token.file =
      Total-seq (Total-parse_file_params eof) λ c good. Total-pure good
  Total-primitive_type tok _ = Total-raise

  Total-parse_primitive_type : Total 0 0 GoodType (parse_primitive_type eof)
  unfolding parse_primitive_type
  Total-parse_primitive_type =
      Total-seq (Total-weak (Total-next_token _)) λ tok x. Total-primitive_type tok tok.token

Total-brackets : Total 0 0 Any brackets
Total-brackets =
    Total-seq Total-skip
      λ s x. Total-seq (Total-weak (Total-expect_that _ _)) λ close y. Total-pure tt

Total-parse_relation_type : Total 0 0 GoodType parse_relation_type
unfolding parse_relation_type GoodType
Total-parse_relation_type = Total-seq (Total-weak (Total-expect_that _ _)) λ arrow x.
    Total-seq (Total-weak (Total-expect_that _ _)) λ tok y.
      Total-seq
        (Total-from_result {P = GoodSchemaName} _ (schema_name_new tok.text)
          λ n h. schema_name_new-GoodSchemaName tok.text n h)
        λ target good. Total-seq (Total-peek_is lbracket) λ many z.
          Total-branch many (λ e. Total-seq Total-brackets λ u w. Total-pure good)
            (λ e. Total-pure good)

-- A composite holds its fields as the definitions that were parsed.
names_of-to_fields :
    (fs : List FieldDefinition) → Distinct field_key fs → Distinct itself (names_of (to_fields fs))
unfolding to_fields
names_of-to_fields [] d = tt
names_of-to_fields (f ∷ fs) d = (unequal fs d.0, names_of-to_fields fs d.1)
  where
    unequal :
        (gs : List FieldDefinition)
        → All (λ g. (f.name == g.name) ≡ false) gs
        → All (λ n. (f.name == n) ≡ false) (names_of (to_fields gs))
    unequal [] h = tt
    unequal (g ∷ gs) h = (h.0, unequal gs h.1)

GoodFields-to_fields : (fs : List FieldDefinition) → All GoodField fs → GoodFields (to_fields fs)
unfolding to_fields GoodField GoodType
GoodFields-to_fields [] h = tt
GoodFields-to_fields (f ∷ fs) (g, gs) = (g.0, g.1, g.2, g.3, GoodFields-to_fields fs gs)

pub Total-no_duplicate :
    (span : Span) (fs : List FieldDefinition)
    → Total 0 0 (λ x. Distinct field_key fs) (no_duplicate span (find_duplicate field_key [] fs))
Total-no_duplicate span fs = elim (Option-cases (find_duplicate field_key [] fs)) [
  | inl e ↦ λ ts. rw e (Total-pure ((find_duplicate-Distinct field_key fs).0 e) ts)
  | inr (f, e) ↦ λ ts. rw e (Total-raise ts)
]

module _ (eof : Span) (nested : Parser (List FieldDefinition)) (n : ℕ)
    (good : Upto n 0 0 (λ fs. All GoodField fs) nested) where
  Upto-parse_composite_type : Upto n 0 0 GoodType (parse_composite_type eof nested)
  unfolding parse_composite_type GoodType
  Upto-parse_composite_type = Upto-seq n (Upto-Total (Total-weak (Total-expect_that _ _))) λ tok x.
      Upto-seq n (Upto-Total (Total-weak (Total-expect_that _ _))) λ opened y.
        Upto-seq n good λ fs all. Upto-Total (
          Total-seq (Total-weak (Total-expect_that _ _)) λ close z.
            Total-seq (Total-current_span eof) λ span w.
              Total-seq (Total-no_duplicate span fs) λ u distinct.
                Total-pure (names_of-to_fields fs distinct, GoodFields-to_fields fs all))

  Total-parse_primitive_or_array : Total 0 0 GoodType (parse_primitive_or_array eof nested)
  unfolding parse_primitive_or_array GoodType
  Total-parse_primitive_or_array = Total-seq (Total-parse_primitive_type eof) λ base h.
      Total-seq (Total-peek_is lbracket) λ array x.
        Total-branch array (λ e. Total-seq Total-brackets λ u y. Total-pure h) (λ e. Total-pure h)

  pub Upto-parse_type : Upto n 0 0 GoodType (parse_type eof nested)
  unfolding parse_type
  Upto-parse_type = Upto-seq n (Upto-Total (Total-peek_is Token.arrow)) λ relation x.
      Upto-seq n (Upto-Total (Total-peek_is Token.composite)) λ composite y.
        Upto-branch relation (λ e. Upto-Total Total-parse_relation_type)
          (λ e.
            Upto-branch composite (λ d. Upto-parse_composite_type)
              (λ d. Upto-Total Total-parse_primitive_or_array))
