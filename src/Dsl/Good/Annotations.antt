-- ===== src/Dsl/Good/Annotations.antt =====
-- The schema annotations of parser.rs: each run ends, with a good annotation or an error.
use mathlib.Core.Path.{subst}
use schemaforge.Prelude.{
  arith, ℕ, zero, suc, ◌<◌, ◌^◌, String, true, none, some, List, [], ◌∷◌, ◌≡◌, All, any, find, ◌==◌,
  Bool-cases, Option-cases, inl, inr, ok,
}
use schemaforge.Prelude.Int.{ℤ, pos, negsuc}
use schemaforge.Core.Names.{field_name_new, schema_name_new}
use schemaforge.Core.Constraints.{schema_version_new}
use schemaforge.Core.Annotation.{Annotation, TenantKind}
use schemaforge.Core.Tokens.Match.{find_arm}
use schemaforge.Core.Tokens.Lifecycle.{hook_from_str}
use schemaforge.Dsl.Token.{Token, Span, SpannedToken, same_token, at, lparen}
use schemaforge.Dsl.Literals.{parse_signed, unquote_string}
use schemaforge.Dsl.Outcome.{Parser}
use schemaforge.Dsl.Cursor.Total.{
  Total, Total-then, Total-seq, Total-weak, Total-pure, Total-raise, Total-branch, Total-peek_is,
  Total-expect_that, Total-from_option, Total-from_result, Total-repeated, some-injective,
}
use schemaforge.Dsl.Params.{extract_string_list}
use schemaforge.Dsl.Annotations.{
  as_u32, parse_version, parse_display, parse_access, parse_dashboard, TenantWord, tenant_words,
  tenant_kind, parse_tenant, parse_hook, valid_events, is_invalid_event, check_event, parse_webhook,
  AnnotationName, annotation_names, annotation_body, parse_annotation, annotation_before,
  parse_annotations,
}
use schemaforge.Dsl.Good.{GoodAnnotation}
use schemaforge.Dsl.Good.Names.{field_name_new-GoodFieldName, schema_name_new-GoodSchemaName}
use schemaforge.Dsl.Good.Params.{Total-parse_named_mixed_params, Total-parse_named_string_lists}

as_u32_lt : (n : ℤ) → as_u32 n < 2 ^ 32
unfolding as_u32
as_u32_lt (pos n) = omega arith
as_u32_lt (negsuc n) = omega arith

schema_version_new-Good :
    (n v : ℕ) → n < 2 ^ 32 → schema_version_new n ≡ ok v → GoodAnnotation (Annotation.version v)
unfolding schema_version_new
schema_version_new-Good zero v b h = cc h
schema_version_new-Good (suc n) v b h = ground arith

Total-parse_version : Total 0 0 GoodAnnotation parse_version
unfolding parse_version
Total-parse_version = Total-seq (Total-weak (Total-expect_that _ _)) λ opened x.
    Total-seq (Total-weak (Total-expect_that _ _)) λ value y.
      Total-seq (Total-from_option _ (parse_signed value.text) λ n e. tt) λ n z.
        Total-seq
          (Total-from_result {P = λ v. GoodAnnotation (Annotation.version v)} _
            (schema_version_new (as_u32 n)) λ v. schema_version_new-Good (as_u32 n) v (as_u32_lt n))
          λ v good. Total-seq (Total-weak (Total-expect_that _ _)) λ close w. Total-pure good

Total-parse_display : Total 0 0 GoodAnnotation parse_display
unfolding parse_display
Total-parse_display = Total-seq (Total-weak (Total-expect_that _ _)) λ opened x.
    Total-seq (Total-weak (Total-expect_that _ _)) λ value y.
      Total-seq
        (Total-from_result _ (field_name_new (unquote_string value.text))
          (field_name_new-GoodFieldName (unquote_string value.text)))
        λ name good. Total-seq (Total-weak (Total-expect_that _ _)) λ close z. Total-pure good

Total-parse_access : Total 0 0 GoodAnnotation parse_access
unfolding parse_access
Total-parse_access = Total-seq (Total-weak (Total-expect_that _ _)) λ opened x.
    Total-seq Total-parse_named_string_lists
      λ lists y. Total-seq (Total-weak (Total-expect_that _ _)) λ close z. Total-pure tt

Total-parse_dashboard : Total 0 0 GoodAnnotation parse_dashboard
unfolding parse_dashboard
Total-parse_dashboard = Total-seq (Total-weak (Total-expect_that _ _)) λ opened x.
    Total-seq Total-parse_named_mixed_params
      λ params y. Total-seq (Total-weak (Total-expect_that _ _)) λ close z. Total-pure tt

abbrev GoodTenant : TenantKind → Type 0
GoodTenant k = GoodAnnotation (Annotation.tenant k)

Total-tenant_kind : (word : TenantWord) → Total 0 0 GoodTenant (tenant_kind word)
unfolding tenant_kind
Total-tenant_kind TenantWord.root = Total-pure tt
Total-tenant_kind TenantWord.parent = Total-seq (Total-weak (Total-expect_that _ _)) λ colon x.
    Total-seq (Total-weak (Total-expect_that _ _)) λ value y.
      Total-seq
        (Total-from_result _ (schema_name_new (unquote_string value.text))
          (schema_name_new-GoodSchemaName (unquote_string value.text)))
        λ name good. Total-pure good

Total-parse_tenant : Total 0 0 GoodAnnotation parse_tenant
unfolding parse_tenant
Total-parse_tenant = Total-seq (Total-weak (Total-expect_that _ _)) λ opened x.
    Total-seq (Total-weak (Total-expect_that _ _)) λ tok y.
      Total-seq (Total-from_option _ (find_arm tok.text tenant_words) λ w e. tt) λ word z.
        Total-seq (Total-tenant_kind word)
          λ kind good. Total-seq (Total-weak (Total-expect_that _ _)) λ close w. Total-pure good

Total-parse_hook : Total 0 0 GoodAnnotation parse_hook
unfolding parse_hook
Total-parse_hook = Total-seq (Total-weak (Total-expect_that _ _)) λ opened x.
    Total-seq (Total-weak (Total-expect_that _ _)) λ tok y.
      Total-seq (Total-from_option _ (hook_from_str tok.text) λ e h. tt) λ event z.
        Total-seq (Total-weak (Total-expect_that _ _))
          λ close w. Total-seq (Total-weak (Total-expect_that _ _)) λ intent v. Total-pure tt

abbrev ValidEvent : String → Type 0
ValidEvent e = any (λ v. v == e) valid_events ≡ true

All-valid_events :
    (events : List String) → find is_invalid_event events ≡ none → All ValidEvent events
All-valid_events [] h = tt
All-valid_events (e ∷ events) h = elim (Bool-cases (any (λ v. v == e) valid_events)) [
  | inl t ↦ (t, All-valid_events events (rw t at h))
  | inr t ↦ cc (rw t at h)
]

Total-check_event :
    (span : Span) (events : List String)
    → Total 0 0 (λ x. All ValidEvent events) (check_event span (find is_invalid_event events))
Total-check_event span events = elim (Option-cases (find is_invalid_event events)) [
  | inl e ↦ λ ts. rw e (Total-pure (All-valid_events events e) ts)
  | inr (bad, e) ↦ λ ts. rw e (Total-raise ts)
]

Total-parse_webhook : (tok : SpannedToken) → Total 0 0 GoodAnnotation (parse_webhook tok)
unfolding parse_webhook
Total-parse_webhook tok = Total-seq (Total-peek_is lparen) λ given x.
    Total-branch given
      (λ e. Total-seq (Total-weak (Total-expect_that _ _)) λ opened y.
        Total-seq Total-parse_named_mixed_params λ params z.
          Total-seq (Total-weak (Total-expect_that _ _)) λ close w.
            Total-seq (Total-check_event tok.span (extract_string_list params.lists "events"))
              λ u valid. Total-pure valid)
      (λ e. Total-pure tt)

Total-annotation_body :
    (tok : SpannedToken) (n : AnnotationName) → Total 0 0 GoodAnnotation (annotation_body tok n)
unfolding annotation_body
Total-annotation_body tok AnnotationName.system = Total-pure tt
Total-annotation_body tok AnnotationName.version = Total-parse_version
Total-annotation_body tok AnnotationName.display = Total-parse_display
Total-annotation_body tok AnnotationName.access = Total-parse_access
Total-annotation_body tok AnnotationName.dashboard = Total-parse_dashboard
Total-annotation_body tok AnnotationName.tenant = Total-parse_tenant
Total-annotation_body tok AnnotationName.hook = Total-parse_hook
Total-annotation_body tok AnnotationName.webhook = Total-parse_webhook tok

Total-parse_annotation : Total 1 1 GoodAnnotation parse_annotation
unfolding parse_annotation
Total-parse_annotation = Total-then (Total-expect_that _ _) λ a x.
    Total-seq (Total-weak (Total-expect_that _ _)) λ tok y.
      Total-seq (Total-from_option _ (find_arm tok.text annotation_names) λ c e. tt)
        λ name z. Total-annotation_body tok name

annotation_before-Total :
    (t : Token) (p : Parser Annotation) → annotation_before t ≡ some p → Total 1 1 GoodAnnotation p
unfolding annotation_before
annotation_before-Total t p h = elim (Bool-cases (same_token t at)) [
  | inl e ↦ subst (Total 1 1 GoodAnnotation) (some-injective _ p (rw e at h)) Total-parse_annotation
  | inr e ↦ cc (rw e at h)
]

pub Total-parse_annotations : Total 0 1 (λ xs. All GoodAnnotation xs) parse_annotations
unfolding parse_annotations
Total-parse_annotations = Total-repeated annotation_before annotation_before-Total
