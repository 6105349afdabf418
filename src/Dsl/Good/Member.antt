-- ===== src/Dsl/Good/Member.antt =====
-- The fields and modifiers of parser.rs: each run ends, with good fields or an error.
use mathlib.Core.Path.{subst}
use schemaforge.Prelude.{
  arith, ℕ, zero, suc, ◌<◌, some, List, [], ◌∷◌, ◌≡◌, All, length, Bool-cases, inl, inr,
}
use schemaforge.Core.Names.{field_name_new}
use schemaforge.Core.Constraints.{FieldModifier}
use schemaforge.Core.Schema.{FieldDefinition}
use schemaforge.Dsl.Token.{Token, Span, SpannedToken, same_token, rbrace}
use schemaforge.Dsl.Error.{invalid_field_name}
use schemaforge.Dsl.Literals.{parse_signed}
use schemaforge.Dsl.Literals.Bounds.{parse_signed-FitsI64}
use schemaforge.Dsl.Outcome.{Parser}
use schemaforge.Dsl.Cursor.{with_fuel, repeated, repeat_loop}
use schemaforge.Dsl.Cursor.Total.{
  finished, Within-weaken, Upto, Upto-then, Upto-seq, Upto-Total, Upto-repeated, Total, Total-then,
  Total-seq, Total-weak, Total-loose, Total-pure, Total-raise, Total-expect_that, Total-next_token,
  Total-from_option, Total-from_result, Total-repeated, some-injective,
}
use schemaforge.Dsl.Fields.{
  literal_value, parse_default_value, modifier, parse_modifiers, parse_field, field_before,
  parse_fields,
}
use schemaforge.Dsl.Good.{GoodDefault, GoodModifier, GoodField}
use schemaforge.Dsl.Good.Names.{field_name_new-GoodFieldName}
use schemaforge.Dsl.Good.Types.{Upto-parse_type}
use schemaforge.Dsl.Good.Notes.{Total-parse_field_annotations}

Total-literal_value : (tok : SpannedToken) (t : Token) → Total 0 0 GoodDefault (literal_value tok t)
unfolding literal_value
Total-literal_value tok Token.string_literal = Total-pure tt
Total-literal_value tok Token.integer_literal =
    Total-seq (Total-from_option _ (parse_signed tok.text) (parse_signed-FitsI64 tok.text))
      λ n fits. Total-pure fits
Total-literal_value tok Token.float_literal = Total-pure tt
Total-literal_value tok Token.true_keyword = Total-pure tt
Total-literal_value tok Token.false_keyword = Total-pure tt
Total-literal_value tok _ = Total-raise

Total-parse_default_value : Total 0 0 GoodDefault parse_default_value
unfolding parse_default_value
Total-parse_default_value = Total-seq (Total-weak (Total-expect_that _ _)) λ opened x.
    Total-seq (Total-weak (Total-next_token _)) λ tok y.
      Total-seq (Total-literal_value tok tok.token)
        λ value good. Total-seq (Total-weak (Total-expect_that _ _)) λ close z. Total-pure good

modifier-Total :
    (t : Token) (p : Parser FieldModifier) → modifier t ≡ some p → Total 1 1 GoodModifier p
unfolding modifier
modifier-Total Token.required p h =
    subst (Total 1 1 GoodModifier) (some-injective _ p h)
      (Total-then (Total-next_token _) λ tok x. Total-pure tt)
modifier-Total Token.indexed p h =
    subst (Total 1 1 GoodModifier) (some-injective _ p h)
      (Total-then (Total-next_token _) λ tok x. Total-pure tt)
modifier-Total Token.default p h = subst (Total 1 1 GoodModifier) (some-injective _ p h) (
    Total-then (Total-next_token _)
      λ tok x. Total-seq Total-parse_default_value λ value good. Total-pure good)
modifier-Total _ p h = cc h

Total-parse_modifiers : Total 0 0 (λ xs. All GoodModifier xs) parse_modifiers
unfolding parse_modifiers
Total-parse_modifiers = Total-loose (Total-repeated modifier modifier-Total)

module _ (eof : Span) (nested : Parser (List FieldDefinition)) (n : ℕ)
    (good : Upto n 0 0 (λ fs. All GoodField fs) nested) where
  Upto-parse_field : Upto (suc n) 1 1 GoodField (parse_field eof nested)
  unfolding parse_field GoodField
  Upto-parse_field = Upto-then n (Total-expect_that _ _) λ tok x.
      Upto-seq n
        (Upto-Total (
          Total-from_result (λ e. invalid_field_name tok.text tok.span) (field_name_new tok.text)
            (field_name_new-GoodFieldName tok.text)))
        λ name named. Upto-seq n (Upto-Total (Total-weak (Total-expect_that _ _))) λ colon y.
          Upto-seq n (Upto-parse_type eof nested n good) λ t typed. Upto-Total (
            Total-seq Total-parse_modifiers λ modifiers all.
              Total-seq (Total-parse_field_annotations eof t)
                λ notes noted. Total-pure (named, typed, all, noted))

  field_before-Upto :
      (t : Token) (p : Parser FieldDefinition)
      → field_before eof nested t ≡ some p
      → Upto (suc n) 1 1 GoodField p
  unfolding field_before
  field_before-Upto t p h = elim (Bool-cases (same_token t rbrace)) [
    | inl e ↦ cc (rw e at h)
    | inr e ↦ subst (Upto (suc n) 1 1 GoodField) (some-injective _ p (rw e at h)) Upto-parse_field
  ]

-- Each level of composites takes a token, so fuel above their number is enough.
Upto-parse_fields :
    (eof : Span) (f n : ℕ) → n < f → Upto n 0 0 (λ fs. All GoodField fs) (parse_fields eof f)
unfolding parse_fields repeated repeat_loop
Upto-parse_fields eof zero n h ts q = absurd (omega arith)
Upto-parse_fields eof (suc f) zero h [] q = finished tt (omega arith)
Upto-parse_fields eof (suc f) zero h (st ∷ ts) q = absurd (omega arith)
Upto-parse_fields eof (suc f) (suc n) h ts q =
    let nested = Upto-parse_fields eof f n (omega arith) in
    Within-weaken (λ a x. x) (omega arith) (omega arith)
      (Upto-repeated (suc n) (field_before eof (parse_fields eof f))
        (field_before-Upto eof (parse_fields eof f) n nested) ts q)

pub Total-parse_fields :
    (eof : Span) → Total 0 0 (λ fs. All GoodField fs) (with_fuel (parse_fields eof))
Total-parse_fields eof ts =
    Upto-parse_fields eof (suc (length ts)) (length ts) (omega arith) ts (omega arith)
