-- ===== src/Dsl/Printer/Schemas.antt =====
-- Types, fields and schemas of crates/schema-forge-dsl/src/printer.rs.
use schemaforge.Prelude.{ℕ, suc, String, List, [], ◌∷◌, ◌++◌}
use schemaforge.Core.FieldType.{FieldType, Fields, end, field}
use schemaforge.Core.Annotation.{Annotation}
use schemaforge.Core.Schema.{FieldDefinition, SchemaDefinition}
use schemaforge.Dsl.Token.{Token}
use schemaforge.Dsl.Printer.{
  Pieces, word, blank, spell, name, space, lparen, rparen, lbracket, rbracket, colon, print_strings,
  print_bound, print_range, print_file, indent, print_many, print_modifier, spaced, joined,
}
use schemaforge.Dsl.Printer.Notes.{print_field_annotation, print_annotation}

unfoldable mutual
  unfolding name print_bound print_range print_file print_modifier print_field_annotation

  pub print_type : ℕ → FieldType → Pieces
  print_type depth (FieldType.text c) = word Token.text "text" ∷ print_bound "max" c.max_length
  print_type depth FieldType.rich_text = word Token.rich_text "richtext" ∷ []
  print_type depth (FieldType.integer c) = word Token.integer "integer" ∷ print_range c.min c.max
  print_type depth (FieldType.float c) =
      word Token.float "float" ∷ print_bound "precision" c.precision
  print_type depth FieldType.boolean = word Token.boolean "boolean" ∷ []
  print_type depth FieldType.date_time = word Token.date_time "datetime" ∷ []
  print_type depth (FieldType.enum variants) =
      word Token.enum "enum" ∷ lparen ∷ print_strings variants ++ rparen ∷ []
  print_type depth FieldType.json = word Token.json "json" ∷ []
  print_type depth (FieldType.relation target cardinality) =
      word Token.arrow "->" ∷ space ∷ name target ∷ print_many cardinality
  print_type depth (FieldType.array t) = print_type depth t ++ lbracket ∷ rbracket ∷ []
  print_type depth (FieldType.composite fields) =
      word Token.composite "composite"
        ∷ space
        ∷ word Token.lbrace "{"
        ∷ blank "\n"
        ∷ print_nested (suc depth) fields
      ++ blank (indent depth) ∷ word Token.rbrace "}" ∷ []
  print_type depth (FieldType.file c) = word Token.file "file" ∷ print_file c

  -- the fields of a composite, a line each
  pub print_nested : ℕ → Fields → Pieces
  print_nested depth end = []
  print_nested depth (field n field_type modifiers annotations source rest) =
      blank (indent depth) ∷ name n ∷ colon ∷ space ∷ print_type depth field_type
      ++ spaced print_modifier modifiers
      ++ spaced print_field_annotation annotations
      ++ blank "\n" ∷ print_nested depth rest

abbrev pub print_field : FieldDefinition → Pieces
print_field f =
    name f.name ∷ colon ∷ space ∷ print_type 1 f.field_type
    ++ spaced print_modifier f.modifiers
    ++ spaced print_field_annotation f.annotations

abbrev pub print_line : FieldDefinition → Pieces
print_line f = blank "    " ∷ print_field f ++ blank "\n" ∷ []

abbrev pub print_above : Annotation → Pieces
print_above a = print_annotation a ++ blank "\n" ∷ []

unfoldable pub print_schema : SchemaDefinition → Pieces
unfolding name print_type print_annotation
print_schema s =
    joined print_above s.annotations
    ++ (word Token.schema "schema"
        ∷ space
        ∷ name s.name
        ∷ space
        ∷ word Token.lbrace "{"
        ∷ blank "\n"
        ∷ (joined print_line s.fields ++ word Token.rbrace "}" ∷ blank "\n" ∷ []))

unfoldable pub print : SchemaDefinition → String
unfolding print_schema spell
print s = spell (print_schema s)

-- Each schema behind the first has an empty line before it.
abbrev pub print_others : List SchemaDefinition → Pieces
print_others [] = []
print_others (s ∷ ss) = blank "\n" ∷ print_schema s ++ print_others ss

abbrev pub print_schemas : List SchemaDefinition → Pieces
print_schemas [] = []
print_schemas (s ∷ ss) = print_schema s ++ print_others ss

unfoldable pub print_all : List SchemaDefinition → String
unfolding print_schema spell
print_all ss = spell (print_schemas ss)
