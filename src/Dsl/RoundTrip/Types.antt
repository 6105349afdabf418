-- ===== src/Dsl/RoundTrip/Types.antt =====
-- The types that printer.rs writes are read back by parser.rs.
use mathlib.Core.Path.{subst}
use schemaforge.Prelude.{
  arith, ℕ, ◌^◌, String, Bool, false, ◌||◌, any, List, [], ◌∷◌, ◌++◌, ◌≡◌, refl, sym, ◌==◌, All,
  Bool-cases, inl, inr, ok,
}
use schemaforge.Core.Constraints.{Cardinality, one, many}
use schemaforge.Core.Constraints.Variants.{GoodVariants, itself, enum_variants_new_iff}
use schemaforge.Core.Names.{schema_name_new}
use schemaforge.Core.Names.Valid.{schema_name_new_iff}
use schemaforge.Core.FieldType.{FieldType}
use schemaforge.Core.Schema.{FieldDefinition}
use schemaforge.Core.Schema.Unique.{Distinct}
use schemaforge.Dsl.Token.{Token, Span, same_token}
use schemaforge.Dsl.Outcome.{Parser}
use schemaforge.Dsl.Cursor.{is_ident, comma_separated}
use schemaforge.Dsl.Params.{push}
use schemaforge.Dsl.Types.{
  enum_variant, parse_enum_type, primitive_type, parse_primitive_type, parse_relation_type,
  parse_primitive_or_array, parse_type,
}
use schemaforge.Dsl.Good.{Below, GoodInteger, GoodSchemaName}
use schemaforge.Dsl.Printer.{
  word, Pieces, name, name_token, lparen, rparen, quoted_item, print_strings,
}
use schemaforge.Dsl.Printer.Schemas.{print_type}
use schemaforge.Dsl.RoundTrip.{
  place, Reads, Reads-pure, Reads-blank, Reads-word, Reads-next, Reads-skip, Reads-peek,
  Reads-peek_end, Reads-span, Reads-result, Reads-then,
}
use schemaforge.Dsl.RoundTrip.Lists.{
  never, is_comma, Reads-last, Reads-weaken, AllAlong, run-push, Reads-comma_separated,
}
use schemaforge.Dsl.RoundTrip.Text.{Plain, unquote_string-quote}
use schemaforge.Dsl.RoundTrip.Params.{
  is_lparen, Reads-text_params, Reads-float_params, Reads-integer_params,
}

-- A type with parameters or brackets must not follow.
abbrev pub opens : Token → Bool
opens t = same_token t Token.lparen || same_token t Token.lbracket

no_bracket : (u : Token) → opens u ≡ false → same_token u Token.lbracket ≡ false
no_bracket u h = ground arith

no_paren : (u : Token) → opens u ≡ false → same_token u Token.lparen ≡ false
no_paren u h = ground arith

-- The variants that are read so far do not hold this one.
abbrev Fresh : List String → String → Type 0
Fresh seen s = Plain s × (any (λ v. v == s) seen ≡ false)

Reads-enum_variant :
    (seen : List String) (s : String)
    → Fresh seen s
    → Reads never (enum_variant seen) (quoted_item s) (push seen s)
unfolding enum_variant
Reads-enum_variant seen s (plain, fresh) =
    Reads-word _ refl λ span. rw (unquote_string-quote s plain, fresh) Reads-pure

any-push :
    (seen : List String) (x s : String)
    → any (λ v. v == s) seen ≡ false
    → (x == s) ≡ false
    → any (λ v. v == s) (push seen x) ≡ false
any-push [] x s h e = ground (arith, e)
any-push (y ∷ seen) x s h e = elim (Bool-cases (y == s)) [
  | inl d ↦ cc (rw d at h)
  | inr d ↦ rw d (any-push seen x s (rw d at h) e)
]

All-fresh :
    (seen : List String) (x : String) (xs : List String)
    → All (λ s. any (λ v. v == s) seen ≡ false) xs
    → All (λ s. (x == s) ≡ false) xs
    → All (λ s. any (λ v. v == s) (push seen x) ≡ false) xs
All-fresh seen x [] h e = tt
All-fresh seen x (s ∷ xs) (h, hs) (e, es) = (any-push seen x s h e, All-fresh seen x xs hs es)

AllAlong-Fresh :
    (seen xs : List String)
    → All Plain xs
    → All (λ s. any (λ v. v == s) seen ≡ false) xs
    → Distinct itself xs
    → AllAlong push Fresh seen xs
AllAlong-Fresh seen [] p h d = tt
AllAlong-Fresh seen (x ∷ xs) (p, ps) (h, hs) (d, ds) =
    ((p, h), AllAlong-Fresh (push seen x) xs ps (All-fresh seen x xs hs d) ds)

AllNotInNil : (xs : List String) → All (λ s. any (λ v. v == s) [] ≡ false) xs
AllNotInNil [] = tt
AllNotInNil (x ∷ xs) = (refl, AllNotInNil xs)

module _ (eof : Span) where
  Reads-enum_variants :
      (x : String) (xs : List String)
      → All Plain (x ∷ xs)
      → Distinct itself (x ∷ xs)
      → Reads is_comma (comma_separated enum_variant []) (print_strings (x ∷ xs)) (x ∷ xs)
  Reads-enum_variants x xs plain distinct =
      let along = AllAlong-Fresh [] (x ∷ xs) plain (AllNotInNil (x ∷ xs)) distinct in
      subst (Reads is_comma (comma_separated enum_variant []) (print_strings (x ∷ xs)))
        (run-push (x ∷ []) xs)
        (Reads-comma_separated quoted_item enum_variant push Fresh Reads-enum_variant [] x xs
          along.0 along.1)

  Reads-enum :
      (variants : List String)
      → GoodVariants variants
      → All Plain variants
      → Reads never
          (parse_enum_type eof)
          (lparen ∷ print_strings variants ++ rparen ∷ [])
          (FieldType.enum variants)
  unfolding parse_enum_type place
  Reads-enum [] good plain = absurd (good.0 refl)
  Reads-enum (x ∷ xs) good plain = Reads-span λ span. Reads-word _ refl λ span'.
      Reads-peek Token.rparen (
        Reads-then is_comma _ (Reads-enum_variants x xs plain good.2)
          (Reads-word _ refl λ span''.
            Reads-result _ _ (x ∷ xs) ((enum_variants_new_iff (x ∷ xs) (x ∷ xs)).1 (refl, good))
              Reads-pure)
          (λ at rest c. refl))

valid : (n : String) → GoodSchemaName n → schema_name_new n ≡ ok n
valid n good = (schema_name_new_iff n n).1 (refl, good.0, good.1)

abbrev pub Primitive : FieldType → Type 0
Primitive (FieldType.text c) = Below (2 ^ 32) c.max_length
Primitive FieldType.rich_text = Unit
Primitive (FieldType.integer c) = GoodInteger c
Primitive (FieldType.float c) = Below (2 ^ 32) c.precision
Primitive FieldType.boolean = Unit
Primitive FieldType.date_time = Unit
Primitive (FieldType.enum variants) = GoodVariants variants × All Plain variants
Primitive FieldType.json = Unit
Primitive _ = ⊥

-- A type with a text of its own: a good primitive one, an array of one, or a relation. The texts in it
-- hold no quote and no backslash, and the target is no keyword.
abbrev pub Simple : FieldType → Type 0
Simple (FieldType.relation target cardinality) =
    GoodSchemaName target × (name_token target ≡ Token.ident)
Simple (FieldType.array t) = Primitive t
Simple t = Primitive t

module _ (eof : Span) (depth : ℕ) where
  Reads-primitive :
      (t : FieldType)
      → Primitive t
      → Reads is_lparen (parse_primitive_type eof) (print_type depth t) t
  unfolding parse_primitive_type primitive_type print_type
  Reads-primitive (FieldType.text c) h =
      Reads-next
        λ span. Reads-last is_lparen _ (Reads-text_params eof c.max_length h) Reads-pure λ u e. e
  Reads-primitive FieldType.rich_text h = Reads-next λ span. Reads-pure
  Reads-primitive (FieldType.integer c) h =
      Reads-next λ span. Reads-last is_lparen _ (Reads-integer_params eof c h) Reads-pure λ u e. e
  Reads-primitive (FieldType.float c) h =
      Reads-next
        λ span. Reads-last is_lparen _ (Reads-float_params eof c.precision h) Reads-pure λ u e. e
  Reads-primitive FieldType.boolean h = Reads-next λ span. Reads-pure
  Reads-primitive FieldType.date_time h = Reads-next λ span. Reads-pure
  Reads-primitive (FieldType.enum variants) h =
      Reads-next λ span. Reads-weaken (Reads-enum eof variants h.0 h.1) λ u e. refl
  Reads-primitive FieldType.json h = Reads-next λ span. Reads-pure
  Reads-primitive (FieldType.relation target cardinality) h = absurd h
  Reads-primitive (FieldType.array t) h = absurd h
  Reads-primitive (FieldType.composite fields) h = absurd h
  Reads-primitive (FieldType.file c) h = absurd h

  Reads-relation :
      (target : String) (cardinality : Cardinality)
      → GoodSchemaName target
      → name_token target ≡ Token.ident
      → Reads opens parse_relation_type
          (print_type depth (FieldType.relation target cardinality))
          (FieldType.relation target cardinality)
  unfolding parse_relation_type print_type name
  Reads-relation target one good h = rw h (
      Reads-word _ refl λ span. Reads-blank (
        Reads-word is_ident refl λ span'.
          Reads-result _ _ target (valid target good)
            (Reads-peek_end Token.lbracket no_bracket Reads-pure)))
  Reads-relation target many good h = rw h (
      Reads-word _ refl λ span. Reads-blank (
        Reads-word is_ident refl λ span'. Reads-result _ _ target (valid target good) (
          Reads-peek Token.lbracket (
            Reads-last never _ (Reads-skip (Reads-word _ refl λ span''. Reads-pure)) Reads-pure
              λ u e. refl))))

  Reads-primitive_type :
      (nested : Parser (List FieldDefinition)) (t : FieldType)
      → Primitive t
      → Reads opens (parse_primitive_or_array eof nested) (print_type depth t) t
  unfolding parse_primitive_or_array
  Reads-primitive_type nested t h =
      Reads-last is_lparen _ (Reads-primitive t h)
        (Reads-peek_end Token.lbracket no_bracket Reads-pure) no_paren

  Reads-array :
      (nested : Parser (List FieldDefinition)) (t : FieldType)
      → Primitive t
      → Reads opens
          (parse_primitive_or_array eof nested)
          (print_type depth (FieldType.array t))
          (FieldType.array t)
  unfolding parse_primitive_or_array print_type place
  Reads-array nested t h =
      Reads-then is_lparen _ (Reads-primitive t h)
        (Reads-peek Token.lbracket (
          Reads-last never _ (Reads-skip (Reads-word _ refl λ span''. Reads-pure)) Reads-pure
            λ u e. refl))
        (λ at rest c. refl)

-- The printed type begins with a word of its own.
abbrev Headed : Pieces → Type 0
Headed pieces =
    (token : Token) × (text : String) × (ps : Pieces) × (pieces ≡ word token text ∷ ps)
    × (same_token token Token.arrow ≡ false)
    × (same_token token Token.composite ≡ false)

Headed-append : (ps qs : Pieces) → Headed ps → Headed (ps ++ qs)
Headed-append ps qs (token, text, rest, e, a, b) = (token, text, rest ++ qs, rw e refl, a, b)

module _ (eof : Span) (nested : Parser (List FieldDefinition)) (depth : ℕ) where
  print_type-Headed : (t : FieldType) → Primitive t → Headed (print_type depth t)
  unfolding print_type
  print_type-Headed (FieldType.text c) h = (_, _, _, refl, refl, refl)
  print_type-Headed FieldType.rich_text h = (_, _, _, refl, refl, refl)
  print_type-Headed (FieldType.integer c) h = (_, _, _, refl, refl, refl)
  print_type-Headed (FieldType.float c) h = (_, _, _, refl, refl, refl)
  print_type-Headed FieldType.boolean h = (_, _, _, refl, refl, refl)
  print_type-Headed FieldType.date_time h = (_, _, _, refl, refl, refl)
  print_type-Headed (FieldType.enum variants) h = (_, _, _, refl, refl, refl)
  print_type-Headed FieldType.json h = (_, _, _, refl, refl, refl)
  print_type-Headed (FieldType.relation target cardinality) h = absurd h
  print_type-Headed (FieldType.array t) h = absurd h
  print_type-Headed (FieldType.composite fields) h = absurd h
  print_type-Headed (FieldType.file c) h = absurd h

  Reads-Headed :
      (pieces : Pieces) (t : FieldType)
      → Headed pieces
      → Reads opens (parse_primitive_or_array eof nested) pieces t
      → Reads opens (parse_type eof nested) pieces t
  unfolding parse_type
  Reads-Headed pieces t (token, text, ps, e, a, b) h =
      subst (λ qs. Reads opens (parse_type eof nested) qs t) (sym e)
        (Reads-peek Token.arrow (
          Reads-peek Token.composite
            (rw (a, b) (subst (λ qs. Reads opens (parse_primitive_or_array eof nested) qs t) e h))))

  pub Reads-type :
      (t : FieldType) → Simple t → Reads opens (parse_type eof nested) (print_type depth t) t
  unfolding print_type parse_type
  Reads-type (FieldType.relation target cardinality) h =
      Reads-peek Token.arrow
        (Reads-peek Token.composite (Reads-relation eof depth target cardinality h.0 h.1))
  Reads-type (FieldType.array t) h =
      Reads-Headed (print_type depth (FieldType.array t)) (FieldType.array t)
        (Headed-append (print_type depth t) _ (print_type-Headed t h))
        (Reads-array eof depth nested t h)
  Reads-type t h =
      Reads-Headed (print_type depth t) t (print_type-Headed t h)
        (Reads-primitive_type eof depth nested t h)
