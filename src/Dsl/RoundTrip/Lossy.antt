-- ===== src/Dsl/RoundTrip/Lossy.antt =====
-- What printer.rs writes in a way that parser.rs reads as something else.
use schemaforge.Prelude.{ℕ, String, Option, none, List, [], ◌++◌, ◌≡◌, refl}
use schemaforge.Core.Constraints.{Cardinality}
use schemaforge.Core.FieldType.{FieldType}
use schemaforge.Core.Annotation.{Annotation}
use schemaforge.Core.Schema.{FieldDefinition}
use schemaforge.Dsl.Token.{Token, Span}
use schemaforge.Dsl.Outcome.{Tokens, Parser, done}
use schemaforge.Dsl.Types.{parse_type}
use schemaforge.Dsl.Annotations.{parse_annotation}
use schemaforge.Dsl.Good.{GoodSchemaName}
use schemaforge.Dsl.Printer.{name_token}
use schemaforge.Dsl.Printer.Notes.{print_annotation}
use schemaforge.Dsl.Printer.Schemas.{print_type}
use schemaforge.Dsl.RoundTrip.{Ahead, place}
use schemaforge.Dsl.RoundTrip.Params.{is_lparen}
use schemaforge.Dsl.RoundTrip.Types.{opens, Reads-type}
use schemaforge.Dsl.RoundTrip.Annotations.{Reads-annotation}

-- An array of single relations and a relation to many are printed alike.
print_type-relations :
    (depth : ℕ) (target : String)
    → print_type depth (FieldType.array (FieldType.relation target Cardinality.one))
      ≡ print_type depth (FieldType.relation target Cardinality.many)
unfolding print_type
print_type-relations depth target = refl

-- The printed words of an array of single relations to a schema with a good name that is no keyword
-- are read back as one relation to many, where no parenthesis and no bracket follow.
pub parse_type-print_relation_array :
    (eof : Span) (nested : Parser (List FieldDefinition)) (depth : ℕ) (target : String)
    (at : ℕ → Span) (rest : Tokens)
    → GoodSchemaName target
    → name_token target ≡ Token.ident
    → Ahead opens rest
    → parse_type eof nested (
        place at (print_type depth (FieldType.array (FieldType.relation target Cardinality.one)))
        ++ rest)
      ≡ done (FieldType.relation target Cardinality.many) rest
parse_type-print_relation_array eof nested depth target at rest good free c =
    rw (print_type-relations depth target) (
      (Reads-type eof nested depth (FieldType.relation target Cardinality.many) (good, free)).reads
        at rest c)

-- A webhook without events and address is read back from its printed words without its secret, where
-- no parenthesis follows.
pub parse_annotation-print_secret :
    (secret : Option String) (at : ℕ → Span) (rest : Tokens)
    → Ahead is_lparen rest
    → parse_annotation (place at (print_annotation (Annotation.webhook [] none secret)) ++ rest)
      ≡ done (Annotation.webhook [] none none) rest
unfolding print_annotation
parse_annotation-print_secret secret at rest c =
    (Reads-annotation (Annotation.webhook [] none none) tt).reads at rest c
