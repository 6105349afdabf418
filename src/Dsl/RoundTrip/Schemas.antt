-- ===== src/Dsl/RoundTrip/Schemas.antt =====
-- The schemas that printer.rs writes are read back by parser.rs.
use schemaforge.Prelude.{String, false, none, List, [], ◌∷◌, ◌++◌, ◌≡◌, ◌≢◌, refl, All, length}
use schemaforge.Core.Names.Valid.{schema_name_new_iff}
use schemaforge.Core.Annotation.{Annotation, kind}
use schemaforge.Core.Schema.{
  FieldDefinition, SchemaDefinition, find_duplicate, field_key, schema_new,
}
use schemaforge.Core.Schema.Unique.{Distinct, find_duplicate-Distinct}
use schemaforge.Dsl.Token.{Token, Span}
use schemaforge.Dsl.Outcome.{Tokens, done}
use schemaforge.Dsl.Cursor.{with_fuel, is_ident}
use schemaforge.Dsl.Fields.{parse_fields}
use schemaforge.Dsl.Parse.{parse_schema, schema_checks, one_primary, has_primary}
use schemaforge.Dsl.Good.{GoodSchemaName}
use schemaforge.Dsl.Printer.{name, name_token, joined}
use schemaforge.Dsl.Printer.Schemas.{print_line, print_schema}
use schemaforge.Dsl.RoundTrip.{
  place, Reads, Reads-blank, Reads-word, Reads-result, Reads-then, Reads-span,
}
use schemaforge.Dsl.RoundTrip.Lists.{never}
use schemaforge.Dsl.RoundTrip.Annotations.{PrintableAnnotation, not_schema, Reads-annotations}
use schemaforge.Dsl.RoundTrip.Fields.{SimpleField, not_rbrace, Reads-fields}

-- A good schema whose name is no keyword, of simple fields and annotations.
abbrev pub PrintableSchema : SchemaDefinition → Type 0
PrintableSchema s =
    GoodSchemaName s.name
    × (name_token s.name ≡ Token.ident)
    × (s.fields ≢ [])
    × All SimpleField s.fields
    × Distinct field_key s.fields
    × All PrintableAnnotation s.annotations
    × Distinct kind s.annotations

one_primary-simple :
    (span : Span) (fs : List FieldDefinition) (ts : Tokens)
    → All SimpleField fs
    → one_primary span none fs ts ≡ done tt ts
unfolding one_primary
one_primary-simple span [] ts h = refl
one_primary-simple span (f ∷ fs) ts (h, hs) =
    rw (bare_has_none f h) (one_primary-simple span fs ts hs)
  where
    bare_has_none : (f : FieldDefinition) → SimpleField f → has_primary f ≡ false
    bare_has_none f h = rw (h.4) refl

-- The checks behind the closing brace accept such a schema.
schema_checks-simple :
    (span : Span) (id n : String) (fs : List FieldDefinition) (notes : List Annotation)
    (ts : Tokens)
    → fs ≢ []
    → All SimpleField fs
    → Distinct field_key fs
    → Distinct kind notes
    → schema_checks span id n fs notes ts
      ≡ done (record { id = id; name = n; fields = fs; annotations = notes }) ts
unfolding schema_checks schema_new find_duplicate
schema_checks-simple span id n [] notes ts filled simple distinct kinds = absurd (filled refl)
schema_checks-simple span id n (f ∷ fs) notes ts filled simple distinct kinds =
    rw
      (
        (find_duplicate-Distinct field_key (f ∷ fs)).1 distinct,
        (find_duplicate-Distinct kind notes).1 kinds,
        one_primary-simple span (f ∷ fs) ts simple,
      )
      refl

Reads-checks :
    (span : Span) (s : SchemaDefinition)
    → PrintableSchema s
    → Reads never (schema_checks span s.id s.name s.fields s.annotations) [] s
unfolding place
Reads-checks span s h = record {
  reads = λ at rest c.
      schema_checks-simple span s.id s.name s.fields s.annotations rest h.2 h.3 h.4 h.6;
}

-- The fuel is one more than the number of tokens.
Reads-fuelled :
    (eof : Span) (fs : List FieldDefinition)
    → All SimpleField fs
    → Reads not_rbrace (with_fuel (parse_fields eof)) (joined print_line fs) fs
Reads-fuelled eof fs h = record {
  reads = λ at rest c.
      (Reads-fields eof (length (place at (joined print_line fs) ++ rest)) fs h).reads at rest c;
}

pub Reads-schema :
    (eof : Span) (s : SchemaDefinition)
    → PrintableSchema s
    → Reads never (parse_schema eof s.id) (print_schema s) s
unfolding parse_schema print_schema name place
Reads-schema eof s h = rw (h.1) (
    Reads-span λ start.
      Reads-then not_schema _ (Reads-annotations s.annotations h.5)
        (Reads-word _ refl λ s1. Reads-blank (
          Reads-word is_ident refl λ s2.
            Reads-result _ _ s.name ((schema_name_new_iff s.name s.name).1 (refl, h.0.0, h.0.1)) (
              Reads-blank (
                Reads-word _ refl λ s3. Reads-blank (
                  Reads-then not_rbrace _ (Reads-fuelled eof s.fields h.3)
                    (Reads-word _ refl λ close. Reads-blank (Reads-checks _ s h))
                    (λ at rest c. refl))))))
        (λ at rest c. refl))
