-- ===== src/Dsl/RoundTrip/Members.antt =====
-- The modifiers and fields that printer.rs writes are read back by parser.rs.
use schemaforge.Dsl.Printer.{is_float_literal, float_token}
use schemaforge.Prelude.{Bool, true, false, none, List, [], ◌∷◌, ◌≡◌, refl, All}
use schemaforge.Prelude.Int.{ℤ}
use schemaforge.Core.Constraints.{DefaultValue, FieldModifier}
use schemaforge.Dsl.Token.{Token, Span}
use schemaforge.Dsl.Outcome.{Tokens, done}
use schemaforge.Dsl.Literals.Bounds.{FitsI64}
use schemaforge.Dsl.Decimal.{to_signed_decimal}
use schemaforge.Dsl.Decimal.RoundTrip.{parse_signed-to_signed_decimal}
use schemaforge.Dsl.Fields.{literal_value, parse_default_value, modifier, parse_modifiers}
use schemaforge.Dsl.Printer.{space, lparen, rparen, print_default_value, print_modifier, spaced}
use schemaforge.Dsl.RoundTrip.{
  place, Reads, Reads-pure, Reads-blank, Reads-word, Reads-next, token_at, Reads-given,
}
use schemaforge.Dsl.RoundTrip.Lists.{never, Reads-last}
use schemaforge.Dsl.RoundTrip.Text.{Plain, unquote_string-quote}
use schemaforge.Dsl.RoundTrip.Repeats.{Item, Reads-repeated}

-- A default that the printer writes as one literal of its own kind: a float has a point.
abbrev pub Literal : DefaultValue → Type 0
Literal (DefaultValue.string s) = Plain s
Literal (DefaultValue.integer z) = FitsI64 z
Literal (DefaultValue.float s) = is_float_literal s ≡ true
Literal _ = Unit

abbrev pub PrintableModifier : FieldModifier → Type 0
PrintableModifier (FieldModifier.default value) = Literal value
PrintableModifier _ = Unit

integer_value :
    (z : ℤ)
    → FitsI64 z
    → (span : Span) (ts : Tokens)
    → literal_value
        (token_at Token.integer_literal (to_signed_decimal z) span)
        Token.integer_literal
        ts
      ≡ done (DefaultValue.integer z) ts
unfolding literal_value
integer_value z h span ts = rw (parse_signed-to_signed_decimal z h) refl

Reads-default_value :
    (value : DefaultValue)
    → Literal value
    → Reads never parse_default_value (lparen ∷ print_default_value value ∷ rparen ∷ []) value
unfolding parse_default_value literal_value print_default_value float_token
Reads-default_value (DefaultValue.string s) h = Reads-word _ refl λ span.
    Reads-next λ span'. rw (unquote_string-quote s h) (Reads-word _ refl λ span''. Reads-pure)
Reads-default_value (DefaultValue.integer z) h = Reads-word _ refl λ span. Reads-next λ span'.
    Reads-given _ (DefaultValue.integer z) (integer_value z h span')
      (Reads-word _ refl λ span''. Reads-pure)
Reads-default_value (DefaultValue.float s) h =
    rw h (Reads-word _ refl λ span. Reads-next λ span'. Reads-word _ refl λ span''. Reads-pure)
Reads-default_value (DefaultValue.boolean true) h =
    Reads-word _ refl λ span. Reads-next λ span'. Reads-word _ refl λ span''. Reads-pure
Reads-default_value (DefaultValue.boolean false) h =
    Reads-word _ refl λ span. Reads-next λ span'. Reads-word _ refl λ span''. Reads-pure

-- The keywords of modifiers.
abbrev pub is_modifier : Token → Bool
is_modifier Token.required = true
is_modifier Token.indexed = true
is_modifier Token.default = true
is_modifier _ = false

modifier-none : (u : Token) → is_modifier u ≡ false → modifier u ≡ none
unfolding modifier
modifier-none Token.required h = cc h
modifier-none Token.indexed h = cc h
modifier-none Token.default h = cc h
modifier-none _ h = refl

modifier-Item :
    (m : FieldModifier) → PrintableModifier m → Item modifier never (space ∷ print_modifier m) m
unfolding modifier print_modifier place
modifier-Item FieldModifier.required h = record {
  parser = _;
  picked = λ at rest. refl;
  read = Reads-blank (Reads-next λ span. Reads-pure);
  starts = λ at rest. refl;
}
modifier-Item FieldModifier.indexed h = record {
  parser = _;
  picked = λ at rest. refl;
  read = Reads-blank (Reads-next λ span. Reads-pure);
  starts = λ at rest. refl;
}
modifier-Item (FieldModifier.default value) h = record {
  parser = _;
  picked = λ at rest. refl;
  read =
      Reads-blank (
        Reads-next λ span. Reads-last never _ (Reads-default_value value h) Reads-pure λ u e. refl);
  starts = λ at rest. refl;
}

All-modifier_items :
    (ms : List FieldModifier)
    → All PrintableModifier ms
    → All (λ m. Item modifier never (space ∷ print_modifier m) m) ms
All-modifier_items [] h = tt
All-modifier_items (m ∷ ms) h = (modifier-Item m h.0, All-modifier_items ms h.1)

-- Printed modifiers are read back where no further one follows.
pub Reads-modifiers :
    (ms : List FieldModifier)
    → All PrintableModifier ms
    → Reads is_modifier parse_modifiers (spaced print_modifier ms) ms
unfolding parse_modifiers
Reads-modifiers ms h =
    Reads-repeated modifier never is_modifier modifier-none (λ u e. refl)
      (λ m. space ∷ print_modifier m) ms (All-modifier_items ms h)
