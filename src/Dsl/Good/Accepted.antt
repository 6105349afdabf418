-- ===== src/Dsl/Good/Accepted.antt =====
-- Whole files of parser.rs: the parse ends for every list of tokens, and what it accepts is good.
use mathlib.Core.Path.{subst}
use schemaforge.Prelude.{
  ◌⊎◌, ◌∙◌, arith, ℕ, zero, suc, ◌-◌, ◌≤◌, String, Option, none, some, List, [], ◌∷◌, ◌≡◌, ◌≢◌,
  refl, sym, All, length, keep, leb, Bool-cases, Option-cases, inl, inr, Result, ok, err, ◌>>=◌,
}
use schemaforge.Core.Names.{FieldName, schema_name_new}
use schemaforge.Core.Annotation.{Annotation, kind}
use schemaforge.Core.Schema.{
  FieldDefinition, SchemaDefinition, find_duplicate, field_key, name_error, kind_error, schema_new,
}
use schemaforge.Core.Schema.Unique.{Distinct, find_duplicate-Distinct}
use schemaforge.Dsl.Token.{Token, Span}
use schemaforge.Dsl.Error.{invalid_schema_name}
use schemaforge.Dsl.Outcome.{Tokens, Outcome, done, failed, out_of_fuel}
use schemaforge.Dsl.Cursor.Total.{
  Within, finished, refused, Within-weaken, Total, Total-lead, Total-then, Total-seq, Total-weak,
  Total-pure, Total-raise, Total-current_span, Total-expect_that, Total-from_result,
}
use schemaforge.Dsl.Params.{push}
use schemaforge.Dsl.Parse.{
  no_duplicate_kind, has_primary, second_primary, one_primary, not_empty, schema_checks,
  parse_schema, recover_token, recover_to_next_schema, Schemas, Errors, FileResult, after_schema,
  conclude, file_loop, parse_file,
}
use schemaforge.Dsl.Good.{GoodSchemaName, GoodField, GoodAnnotation, GoodSchema}
use schemaforge.Dsl.Good.Names.{schema_name_new-GoodSchemaName}
use schemaforge.Dsl.Good.Types.{Total-no_duplicate}
use schemaforge.Dsl.Good.Member.{Total-parse_fields}
use schemaforge.Dsl.Good.Annotations.{Total-parse_annotations}

Total-no_duplicate_kind :
    (span : Span) (annotations : List Annotation)
    → Total 0 0
        (λ x. Distinct kind annotations)
        (no_duplicate_kind span (find_duplicate kind [] annotations))
Total-no_duplicate_kind span annotations =
    elim (Option-cases (find_duplicate kind [] annotations)) [
      | inl e ↦ λ ts. rw e (Total-pure ((find_duplicate-Distinct kind annotations).0 e) ts)
      | inr (a, e) ↦ λ ts. rw e (Total-raise ts)
    ]

Total-not_empty :
    (span : Span) (name : String) (fs : List FieldDefinition)
    → Total 0 0 (λ x. fs ≢ []) (not_empty span name fs)
Total-not_empty span name [] = Total-raise
Total-not_empty span name (f ∷ fs) = Total-pure (λ e. cc e)

abbrev allowed : Option FieldName → ℕ
allowed none = 1
allowed (some first) = 0

Total-one_primary :
    (span : Span) (first : Option FieldName) (fs : List FieldDefinition)
    → Total 0 0 (λ x. length (keep has_primary fs) ≤ allowed first) (one_primary span first fs)
unfolding one_primary
Total-one_primary span first [] ts = Total-pure (omega arith) ts
Total-one_primary span first (f ∷ fs) ts = elim (Bool-cases (has_primary f)) [
  | inl e ↦ rw e (second first (Total-one_primary span (some f.name) fs) ts)
  | inr e ↦ rw e (Total-one_primary span first fs ts)
]
  where
    second :
        (o : Option FieldName)
        → Total 0 0 (λ x. length (keep has_primary fs) ≤ 0) (one_primary span (some f.name) fs)
        → Total 0 0
            (λ x. suc (length (keep has_primary fs)) ≤ allowed o)
            (second_primary span o f.name (one_primary span (some f.name) fs))
    second none h ts = Within-weaken (λ x p. omega arith) (omega arith) (omega arith) (h ts)
    second (some g) h ts = Total-raise ts

schema_of :
    (id name : String) (fs : List FieldDefinition) (notes : List Annotation) (s : SchemaDefinition)
    → schema_new id name fs notes ≡ ok s
    → s ≡ record { id = id; name = name; fields = fs; annotations = notes }
unfolding schema_new
schema_of id name [] notes s h = cc h
schema_of id name (f ∷ fs) notes s h =
    by_checks (find_duplicate field_key [] (f ∷ fs)) (find_duplicate kind [] notes) h
  where
    by_checks :
        (d : Option FieldDefinition) (e : Option Annotation)
        → ((name_error d >>= λ _. kind_error e >>= λ _.
              ok (record { id = id; name = name; fields = f ∷ fs; annotations = notes }))
            ≡ ok s)
        → s ≡ record { id = id; name = name; fields = f ∷ fs; annotations = notes }
    by_checks none none h = cc h
    by_checks none (some e) h = cc h
    by_checks (some d) e h = cc h

module _ (eof : Span) (id : String) where
  pub Total-parse_schema : Total 1 1 GoodSchema (parse_schema eof id)
  unfolding parse_schema GoodSchema
  Total-parse_schema = Total-lead (Total-current_span eof) λ start x.
      Total-lead Total-parse_annotations λ notes noted.
        Total-then (Total-expect_that _ _) λ keyword y.
          Total-seq (Total-weak (Total-expect_that _ _)) λ tok z.
            Total-seq
              (Total-from_result (λ e. invalid_schema_name tok.text tok.span)
                (schema_name_new tok.text) (schema_name_new-GoodSchemaName tok.text))
              λ name named. Total-seq (Total-weak (Total-expect_that _ _)) λ opened w.
                Total-seq (Total-parse_fields eof) λ fields good.
                  Total-seq (Total-weak (Total-expect_that _ _)) λ close v.
                    checks (record { start = start.start; end = close.span.end }) name fields notes
                      named good noted
    where
      checks :
          (span : Span) (name : String) (fields : List FieldDefinition) (notes : List Annotation)
          → GoodSchemaName name
          → All GoodField fields
          → All GoodAnnotation notes
          → Total 0 0 GoodSchema (schema_checks span id name fields notes)
      checks span name fields notes named good noted =
          Total-seq (Total-not_empty span name fields) λ x filled.
            Total-seq (Total-no_duplicate span fields) λ y names.
              Total-seq (Total-no_duplicate_kind span notes) λ z kinds.
                Total-seq (Total-one_primary span none fields) λ w primary.
                  Total-from_result _ (schema_new id name fields notes) λ s h.
                    subst GoodSchema (sym (schema_of id name fields notes s h))
                      (named, filled, good, names, noted, kinds, primary)

-- The recovery skips tokens and adds none.
recover-shorter : (depth : ℕ) (ts : Tokens) → length (recover_to_next_schema depth ts) ≤ length ts
unfolding recover_to_next_schema
recover-shorter depth [] = omega arith
recover-shorter depth (st ∷ ts) = by_token st.token depth λ d. recover-shorter d ts
  where
    by_token :
        (t : Token) (d : ℕ)
        → ((d' : ℕ) → length (recover_to_next_schema d' ts) ≤ length ts)
        → length (recover_token t d (st ∷ ts) ts λ d'. recover_to_next_schema d' ts)
          ≤ suc (length ts)
    by_token Token.lbrace d h = omega (arith, h (suc d))
    by_token Token.rbrace d h = elim (Bool-cases (leb d 1)) [
      | inl e ↦ rw e (omega arith)
      | inr e ↦ rw e (omega (arith, h (d - 1)))
    ]
    by_token Token.schema zero h = omega arith
    by_token Token.at zero h = omega arith
    by_token _ d h = omega (arith, h d)

-- The schemas that a parse returns are good, or it returns errors.
unfoldable pub GoodResult : Result Schemas Errors → Type 0
GoodResult (ok schemas) = All GoodSchema schemas
GoodResult (err errors) = errors ≢ []

conclude-GoodResult :
    (schemas : Schemas) (errors : Errors)
    → All GoodSchema schemas
    → GoodResult (conclude schemas errors)
unfolding GoodResult
conclude-GoodResult schemas [] h = h
conclude-GoodResult schemas (e ∷ errors) h = λ q. cc q

All-push :
    (schemas : Schemas) (s : SchemaDefinition)
    → All GoodSchema schemas
    → GoodSchema s
    → All GoodSchema (push schemas s)
All-push [] s h g = (g, tt)
All-push (x ∷ schemas) s h g = (h.0, All-push schemas s h.1 g)

-- A run that ends with a result.
abbrev pub Ends : FileResult → Type 0
Ends r = (v : Result Schemas Errors) × (r ≡ some v) × GoodResult v

module _ (eof : Span) (new_id : ℕ → String) where
  file_loop-Ends :
      (f : ℕ) (schemas : Schemas) (errors : Errors) (ts : Tokens)
      → length ts ≤ f
      → All GoodSchema schemas
      → Ends (file_loop eof new_id f schemas errors ts)
  unfolding file_loop GoodResult
  file_loop-Ends f schemas errors [] b h =
      (conclude schemas errors, refl, conclude-GoodResult schemas errors h)
  file_loop-Ends zero schemas errors (st ∷ ts) b h = absurd (omega arith)
  file_loop-Ends (suc f) schemas errors (st ∷ ts) b h =
      after schemas errors (parse_schema eof (new_id (length schemas)) (st ∷ ts))
        (Total-parse_schema eof (new_id (length schemas)) (st ∷ ts)) b h (file_loop eof new_id f)
        (file_loop-Ends f)
    where
      after :
          (schemas : Schemas) (errors : Errors) (o : Outcome SchemaDefinition)
          → Within 1 1 GoodSchema (st ∷ ts) o
          → suc (length ts) ≤ suc f
          → All GoodSchema schemas
          → (go : Schemas → Errors → Tokens → FileResult)
          → ((s : Schemas) (e : Errors) (rest : Tokens)
              → length rest ≤ f
              → All GoodSchema s
              → Ends (go s e rest))
          → Ends (after_schema o schemas errors go)
      after schemas errors (done s rest) (finished g q) b h go ih =
          ih (push schemas s) errors rest (omega arith) (All-push schemas s h g)
      after schemas errors (failed e rest) (refused q) b h go ih =
          ih schemas (push errors e) (recover_to_next_schema 0 rest)
            (omega (arith, recover-shorter 0 rest)) h
      after schemas errors out_of_fuel x b h go ih = elim x [ ]

parse_file-Ends : (new_id : ℕ → String) (ts : Tokens) → Ends (parse_file new_id ts)
unfolding parse_file file_loop
parse_file-Ends new_id ts = file_loop-Ends _ new_id (length ts) [] [] ts (omega arith) tt

-- The parse of a file ends for every list of tokens, with schemas or with at least one error: each
-- round of a loop, each level of composites and each recovery takes a token.
pub parse_file-total :
    (new_id : ℕ → String) (ts : Tokens)
    → ((schemas : Schemas) × (parse_file new_id ts ≡ some (ok schemas)))
      ⊎ ((errors : Errors) × (parse_file new_id ts ≡ some (err errors)) × (errors ≢ []))
unfolding GoodResult
parse_file-total new_id ts = by_result (parse_file-Ends new_id ts)
  where
    by_result :
        Ends (parse_file new_id ts)
        → ((schemas : Schemas) × (parse_file new_id ts ≡ some (ok schemas)))
          ⊎ ((errors : Errors) × (parse_file new_id ts ≡ some (err errors)) × (errors ≢ []))
    by_result (ok schemas, h, good) = inl (schemas, h)
    by_result (err errors, h, some_error) = inr (errors, h, some_error)

-- Every schema that a parse returns can be stored: its name and its fields' names are valid, it has a
-- field, no two of its fields share a name and no two of its annotations a kind, at most one field is
-- the primary column, and its types, modifiers and annotations hold values in their ranges, those of
-- nested composites included (`GoodSchema`).
pub parse_file-GoodSchema :
    (new_id : ℕ → String) (ts : Tokens) (schemas : Schemas)
    → parse_file new_id ts ≡ some (ok schemas)
    → All GoodSchema schemas
unfolding GoodResult
parse_file-GoodSchema new_id ts schemas h =
    let (r, e, good) = parse_file-Ends new_id ts in
    subst GoodResult (same r (ok schemas) (sym e ∙ h)) good
  where
    same : (a b : Result Schemas Errors) → some a ≡ some b → a ≡ b
    same a b q = cc q
