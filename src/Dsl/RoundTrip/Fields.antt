-- ===== src/Dsl/RoundTrip/Fields.antt =====
-- The fields that printer.rs writes are read back by parser.rs.
use mathlib.Core.Path.{subst}
use schemaforge.Prelude.{
  append-nil, arith, ℕ, suc, String, Bool, true, false, ◌||◌, none, List, [], ◌∷◌, ◌++◌, ◌≡◌, refl,
  All,
}
use schemaforge.Core.Names.Valid.{field_name_new_iff}
use schemaforge.Core.Constraints.{FieldModifier}
use schemaforge.Core.FieldType.{FieldType}
use schemaforge.Core.Schema.{FieldDefinition}
use schemaforge.Dsl.Token.{Token, Span, same_token}
use schemaforge.Dsl.Outcome.{Tokens, Parser}
use schemaforge.Dsl.Cursor.{is_ident}
use schemaforge.Dsl.Fields.{parse_field, field_before, parse_fields}
use schemaforge.Dsl.Fields.Notes.{parse_field_annotations, note_before}
use schemaforge.Dsl.Good.{GoodFieldName}
use schemaforge.Dsl.Printer.{Pieces, blank, name, name_token, print_modifier, spaced, joined}
use schemaforge.Dsl.Printer.Schemas.{print_type, print_field, print_line}
use schemaforge.Dsl.RoundTrip.{
  Ahead, place, place-append, Reads, Reads-pure, Reads-blank, Reads-word, Reads-result, Reads-then,
}
use schemaforge.Dsl.RoundTrip.Lists.{Reads-last}
use schemaforge.Dsl.RoundTrip.Types.{opens, Simple, Reads-type}
use schemaforge.Dsl.RoundTrip.Repeats.{Item, Reads-repeated}
use schemaforge.Dsl.RoundTrip.Members.{PrintableModifier, is_modifier, Reads-modifiers}

-- A field with a name that is no keyword, a simple type and no annotations, as the parser makes it.
abbrev pub SimpleField : FieldDefinition → Type 0
SimpleField f =
    GoodFieldName f.name
    × (name_token f.name ≡ Token.ident)
    × Simple f.field_type
    × All PrintableModifier f.modifiers
    × (f.annotations ≡ [])
    × (f.derived_from ≡ none)

abbrev pub is_at : Token → Bool
is_at t = same_token t Token.at

-- What would be read as more of a field.
abbrev pub goes_on : Token → Bool
goes_on t = opens t || is_modifier t || is_at t

module _ (eof : Span) (field_type : FieldType) where
  note_before-none : (u : Token) → is_at u ≡ false → note_before eof field_type u ≡ none
  unfolding note_before
  note_before-none u h = rw h refl

  no_notes : Reads is_at (parse_field_annotations eof field_type) [] []
  unfolding parse_field_annotations
  no_notes =
      Reads-repeated (note_before eof field_type) is_at is_at note_before-none (λ u e. e) (λ a. [])
        [] tt

not_opens : (u : Token) → goes_on u ≡ false → opens u ≡ false
not_opens u h = ground arith

not_modifier : (u : Token) → goes_on u ≡ false → is_modifier u ≡ false
not_modifier u h = ground arith

not_at : (u : Token) → goes_on u ≡ false → is_at u ≡ false
not_at u h = ground arith

Ahead-weaken :
    (bad next : Token → Bool)
    → ((u : Token) → bad u ≡ false → next u ≡ false)
    → (ts : Tokens) → Ahead bad ts
    → Ahead next ts
Ahead-weaken bad next h [] c = tt
Ahead-weaken bad next h (st ∷ ts) c = h st.token c

-- Behind the type stands a modifier or what stands behind the field.
after_type :
    (ms : List FieldModifier) (at : ℕ → Span) (rest : Tokens)
    → Ahead goes_on rest
    → Ahead opens (place at (spaced print_modifier ms) ++ rest)
unfolding place print_modifier
after_type [] at rest c = Ahead-weaken goes_on opens not_opens rest c
after_type (FieldModifier.required ∷ ms) at rest c = refl
after_type (FieldModifier.indexed ∷ ms) at rest c = refl
after_type (FieldModifier.default value ∷ ms) at rest c = refl

abbrev plain_field : String → FieldType → List FieldModifier → FieldDefinition
plain_field n t ms = record {
  name = n;
  field_type = t;
  modifiers = ms;
  annotations = [];
  derived_from = none;
}

plain_field-eta :
    (f : FieldDefinition)
    → f.annotations ≡ []
    → f.derived_from ≡ none
    → plain_field f.name f.field_type f.modifiers ≡ f
plain_field-eta f bare own = cc (bare, own)

module _ (eof : Span) (nested : Parser (List FieldDefinition)) where
  Reads-plain_field :
      (n : String) (t : FieldType) (ms : List FieldModifier)
      → GoodFieldName n
      → name_token n ≡ Token.ident
      → Simple t
      → All PrintableModifier ms
      → Reads goes_on
          (parse_field eof nested)
          (print_field (plain_field n t ms))
          (plain_field n t ms)
  unfolding parse_field name
  Reads-plain_field n t ms good free simple printable =
      rw (free, append-nil (print_type 1 t ++ spaced print_modifier ms))
        (Reads-word is_ident refl λ span.
          Reads-result _ _ n ((field_name_new_iff n n).1 (refl, good.0, good.1)) (
            Reads-word _ refl λ span'. Reads-blank (
              Reads-then opens _ (Reads-type eof nested 1 t simple)
                (Reads-last is_modifier _ (Reads-modifiers ms printable)
                  (Reads-last is_at _ (no_notes eof t) Reads-pure not_at) not_modifier)
                (after_type ms))))

  Reads-field :
      (f : FieldDefinition)
      → SimpleField f
      → Reads goes_on (parse_field eof nested) (print_field f) f
  Reads-field f (good, free, simple, printable, bare, own) =
      subst (λ g. Reads goes_on (parse_field eof nested) (print_field g) g)
        (plain_field-eta f bare own)
        (Reads-plain_field f.name f.field_type f.modifiers good free simple printable)

module _ {A : Type 0} {bad : Token → Bool} {p : Parser A} {a : A} where
  pub Reads-line_end :
      (ps : Pieces) (text : String) → Reads bad p ps a → Reads bad p (ps ++ blank text ∷ []) a
  unfolding place
  Reads-line_end ps text h = record {
    reads = λ at rest c. rw (place-append ps (blank text ∷ []) at rest) (h.reads at rest c);
  }

-- Only a closing brace ends the fields.
abbrev pub not_rbrace : Token → Bool
not_rbrace Token.rbrace = false
not_rbrace _ = true

module _ (eof : Span) (nested : Parser (List FieldDefinition)) where
  brace_stops : (u : Token) → not_rbrace u ≡ false → field_before eof nested u ≡ none
  unfolding field_before
  brace_stops Token.rbrace h = refl
  brace_stops _ h = cc h

  brace_fits : (u : Token) → not_rbrace u ≡ false → goes_on u ≡ false
  brace_fits Token.rbrace h = refl
  brace_fits _ h = cc

  field-Item :
      (f : FieldDefinition)
      → SimpleField f
      → Item (field_before eof nested) goes_on (print_line f) f
  unfolding field_before place name
  field-Item f h = record {
    parser = parse_field eof nested;
    picked = λ at rest. rw (h.1) refl;
    read = Reads-blank (Reads-line_end (print_field f) "\n" (Reads-field eof nested f h));
    starts = λ at rest. rw (h.1) refl;
  }

  All-field_items :
      (fs : List FieldDefinition)
      → All SimpleField fs
      → All (λ f. Item (field_before eof nested) goes_on (print_line f) f) fs
  All-field_items [] h = tt
  All-field_items (f ∷ fs) h = (field-Item f h.0, All-field_items fs h.1)

-- Printed fields are read back by as many steps of nesting as there are, at least one.
pub Reads-fields :
    (eof : Span) (fuel : ℕ) (fs : List FieldDefinition)
    → All SimpleField fs
    → Reads not_rbrace (parse_fields eof (suc fuel)) (joined print_line fs) fs
unfolding parse_fields
Reads-fields eof fuel fs h =
    let nested = parse_fields eof fuel in
    Reads-repeated (field_before eof nested) goes_on not_rbrace (brace_stops eof nested)
      (brace_fits eof nested) print_line fs (All-field_items eof nested fs h)
