-- ===== src/Dsl/Good/File.antt =====
-- The `file(..)` type of parser.rs: its run ends, with good constraints or an error.
use Prim.Native.Char.{Char}
use text.Mathlib.TextLemmas.{cons-append}
use mathlib.Core.Path.{subst}
use schemaforge.Core.Error.{SchemaError}
use schemaforge.Dsl.Error.{DslError}
use schemaforge.Prelude.{
  arith, ◌<◌, ◌^◌, String, Bool, true, false, Option, none, some, List, [], ◌∷◌, ◌≡◌, ◌≢◌, refl,
  ◌==◌, eqb, ◌||◌, eq_iff, All, Bool-cases, inl, inr, Result, ok, if◌then◌else◌,
}
use schemaforge.Core.Constraints.{MimePattern, exact, family}
use schemaforge.Core.Text.{trim}
use schemaforge.Core.Mime.{mime_parse, from_parts, split_slash, join_slash}
use schemaforge.Core.Tokens.Match.{find_arm}
use schemaforge.Core.Tokens.Lifecycle.{access_from_str}
use schemaforge.Dsl.Token.{Span, SpannedToken, rparen}
use schemaforge.Dsl.Literals.{parse_size_literal, unquote_string}
use schemaforge.Dsl.Literals.Bounds.{parse_size_literal_lt}
use schemaforge.Dsl.Outcome.{pure, raise, branch}
use schemaforge.Dsl.Cursor.Total.{
  Total, Total-then, Total-seq, Total-weak, Total-pure, Total-raise, Total-branch, Total-peek_is,
  Total-current_span, Total-expect_that, Total-next_token, Total-comma_separated, Total-from_option,
  Total-from_result,
}
use schemaforge.Dsl.Types.File.{
  FileParams, FileKey, file_keys, size_text, size_value, mime_patterns, mime_list, file_value,
  file_param, no_params, file_constraints, parse_file_params,
}
use schemaforge.Dsl.Good.{Below, GoodMime, GoodFile}
use schemaforge.Dsl.Good.Params.{Total-parse_string_list}

join-ne-empty : (kind subtype : String) → kind ≢ "" → join_slash kind subtype ≢ ""
join-ne-empty String.[] subtype h = absurd (h refl)
join-ne-empty (String.◌∷◌ c s) subtype h = λ e. nonempty (rw cons-append at e)
  where
    nonempty : {d : Char} {t : String} → String.◌∷◌ d t ≡ "" → ⊥
    nonempty q = cc q

join-GoodMime :
    (kind subtype : String) (b : Bool) (p : MimePattern)
    → kind ≢ ""
    → ◌≡◌ {A = Result MimePattern SchemaError}
        (if b then ok (family kind) else ok (exact (join_slash kind subtype)))
        (ok p)
    → GoodMime p
join-GoodMime kind subtype true (exact s) h e = cc e
join-GoodMime kind subtype true (family s) h e = λ p. h (cc (p, e))
join-GoodMime kind subtype false (exact s) h e = λ p. join-ne-empty kind subtype h (cc (p, e))
join-GoodMime kind subtype false (family s) h e = cc e

from_parts-GoodMime :
    (raw : String) (parts : Option (String × String)) (p : MimePattern)
    → from_parts raw parts ≡ ok p
    → GoodMime p
from_parts-GoodMime raw none p h = cc h
from_parts-GoodMime raw (some (kind, subtype)) p h =
    elim (Bool-cases ((kind == "") || (subtype == ""))) [
      | inl e ↦ cc (rw e at h)
      | inr e ↦
          join-GoodMime kind subtype (subtype == "*") p (λ q. cc (e, (eq_iff kind "").1 q))
            (rw e at h)
    ]

pub mime_parse-GoodMime : (raw : String) (p : MimePattern) → mime_parse raw ≡ ok p → GoodMime p
unfolding mime_parse
mime_parse-GoodMime raw p h = elim (Bool-cases (trim raw == "")) [
  | inl e ↦ cc (rw e at h)
  | inr e ↦ from_parts-GoodMime raw (split_slash (trim raw)) p (rw e at h)
]

abbrev pub GoodMimes : Option (List MimePattern) → Type 0
GoodMimes none = Unit
GoodMimes (some ps) = (ps ≢ []) × All GoodMime ps

abbrev GoodParams : FileParams → Type 0
GoodParams p = Below (2 ^ 64) p.max_size × GoodMimes p.mime

Total-size_value : (tok : SpannedToken) → Total 0 0 (λ n. n < 2 ^ 64) (size_value tok)
unfolding size_value
Total-size_value tok =
    Total-seq (Total-from_option _ (size_text tok.token tok.text) λ raw e. tt)
      λ raw x. Total-from_option _ (parse_size_literal raw) (λ n. parse_size_literal_lt raw n)

Total-mime_patterns :
    (span : Span) (ss : List String) → Total 0 0 (λ ps. All GoodMime ps) (mime_patterns span ss)
unfolding mime_patterns
Total-mime_patterns span [] = Total-pure tt
Total-mime_patterns span (s ∷ ss) =
    Total-seq (Total-from_result _ (mime_parse s) (mime_parse-GoodMime s))
      λ p good. Total-seq (Total-mime_patterns span ss) λ ps all. Total-pure (good, all)

Total-mime_list :
    (span : Span) (ss : List String) → Total 0 0 (λ ps. GoodMimes (some ps)) (mime_list span ss)
unfolding mime_list mime_patterns
Total-mime_list span [] = Total-raise
Total-mime_list span (s ∷ ss) =
    Total-seq (Total-from_result _ (mime_parse s) (mime_parse-GoodMime s)) λ p good.
      Total-seq (Total-mime_patterns span ss) λ ps all. Total-pure (λ e. cc e, (good, all))

Total-file_value :
    (key : SpannedToken) (params : FileParams) (k : FileKey)
    → GoodParams params
    → Total 0 0 GoodParams (file_value key params k)
unfolding file_value
Total-file_value key params FileKey.bucket good =
    Total-seq (Total-weak (Total-expect_that _ _)) λ tok x. Total-pure good
Total-file_value key params FileKey.max_size good =
    Total-seq (Total-weak (Total-next_token _))
      λ tok x. Total-seq (Total-size_value tok) λ bytes fits. Total-pure (fits, good.1)
Total-file_value key params FileKey.mime good =
    Total-seq (Total-weak Total-parse_string_list) λ items x.
      Total-seq (Total-mime_list key.span items) λ patterns mimes. Total-pure (good.0, mimes)
Total-file_value key params FileKey.access good =
    Total-seq (Total-weak (Total-expect_that _ _)) λ tok x.
      Total-seq (Total-from_option _ (access_from_str (unquote_string tok.text)) λ a e. tt)
        λ mode y. Total-pure good

Total-file_param :
    (params : FileParams) → GoodParams params → Total 1 1 GoodParams (file_param params)
unfolding file_param
Total-file_param params good = Total-then (Total-expect_that _ _) λ key x.
    Total-seq (Total-weak (Total-expect_that _ _)) λ tok y.
      Total-seq (Total-from_option _ (find_arm key.text file_keys) λ k e. tt)
        λ k z. Total-file_value key params k good

-- a check of the code that raises an error
pub Total-check :
    (b : Bool) (e : DslError) → Total 0 0 (λ x. b ≡ false) (branch b (raise e) (pure tt))
Total-check true e = Total-raise
Total-check false e = Total-pure refl

Total-file_constraints :
    (span : Span) (params : FileParams)
    → GoodParams params
    → Total 0 0 GoodFile (file_constraints span params)
unfolding file_constraints
Total-file_constraints span params good =
    Total-seq (Total-from_option _ params.bucket λ a e. tt) λ place x.
      Total-seq (Total-check (place == "") _) λ c named.
        Total-seq
          (Total-from_option {P = λ n. n < 2 ^ 64} _ params.max_size
            λ n e. subst (λ o. Below (2 ^ 64) o) e good.0)
          λ size fits. Total-seq (Total-check (eqb size 0) _) λ d positive.
            Total-seq
              (Total-from_option {P = λ ps. GoodMimes (some ps)} _ params.mime
                λ ps e. subst (λ o. GoodMimes o) e good.1)
              λ allowed mimes.
                Total-pure
                  (λ p. cc (named, (eq_iff place "").1 p), ground arith, fits, mimes.0, mimes.1)

pub Total-parse_file_params : (eof : Span) → Total 0 0 GoodFile (parse_file_params eof)
unfolding parse_file_params
Total-parse_file_params eof = Total-seq (Total-current_span eof) λ span x.
    Total-seq (Total-weak (Total-expect_that _ _)) λ tok y.
      Total-seq (Total-peek_is rparen) λ empty z.
        Total-seq
          (Total-branch {P = GoodParams} empty (λ e. Total-pure (tt, tt))
            (λ e. Total-weak (Total-comma_separated Total-file_param no_params (tt, tt))))
          λ params good.
            Total-seq (Total-weak (Total-expect_that _ _))
              λ close w. Total-file_constraints span params good
