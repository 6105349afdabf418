-- ===== src/Dsl/Annotations.antt =====
-- Schema annotations in crates/schema-forge-dsl/src/parser.rs.
use Prim.Native.Nat.{◌%◌}
use Prim.Native.String
use schemaforge.Prelude.{
  ℕ, ◌-◌, ◌^◌, String, Bool, not, Option, none, some, List, [], ◌∷◌, any, find, ◌==◌, if◌then◌else◌,
}
use schemaforge.Prelude.Int.{ℤ, pos, negsuc}
use schemaforge.Core.Names.{field_name_new, schema_name_new}
use schemaforge.Core.Constraints.{schema_version_new}
use schemaforge.Core.Annotation.{Annotation, TenantKind}
use schemaforge.Core.Tokens.Match.{find_arm}
use schemaforge.Core.Tokens.Lifecycle.{hook_from_str}
use schemaforge.Dsl.Token.{Token, Span, SpannedToken, same_token, lparen, rparen, colon, at}
use schemaforge.Dsl.Error.{
  unexpected_token, core_schema_error, invalid_integer_literal, invalid_field_name,
  invalid_schema_name, unknown_annotation,
}
use schemaforge.Dsl.Literals.{parse_signed, unquote_string, unquote_triple_string}
use schemaforge.Dsl.Outcome.{Parser, pure, raise, ◌>>=◌, ◌>>◌, branch}
use schemaforge.Dsl.Cursor.{
  peek_is, expect, expect_ident, expect_string_literal, expect_integer_literal,
  expect_triple_string_literal, from_option, from_result, repeated,
}
use schemaforge.Dsl.Params.{
  parse_named_string_lists, parse_named_mixed_params, extract_string_list, extract_optional_string,
}

-- `n as u32` on an i64 keeps the low 32 bits.
unfoldable pub as_u32 : ℤ → ℕ
as_u32 (pos n) = n % 2 ^ 32
as_u32 (negsuc n) = 2 ^ 32 - 1 - n % 2 ^ 32

unfoldable pub parse_version : Parser Annotation
unfolding parse_signed as_u32 schema_version_new
parse_version = do
  expect lparen
  value ← expect_integer_literal
  n ← from_option (invalid_integer_literal value.text value.span) (parse_signed value.text)
  v ← from_result (λ e. core_schema_error e value.span) (schema_version_new (as_u32 n))
  expect rparen
  pure (Annotation.version v)

unfoldable pub parse_display : Parser Annotation
unfolding unquote_string field_name_new
parse_display = do
  expect lparen
  value ← expect_string_literal
  name ←
      from_result (λ e. invalid_field_name (unquote_string value.text) value.span)
        (field_name_new (unquote_string value.text))
  expect rparen
  pure (Annotation.display name)

unfoldable pub parse_access : Parser Annotation
unfolding parse_named_string_lists extract_string_list
parse_access = do
  expect lparen
  lists ← parse_named_string_lists
  expect rparen
  pure (
      Annotation.access (extract_string_list lists "read") (extract_string_list lists "write")
        (extract_string_list lists "delete") (extract_string_list lists "cross_tenant_read"))

unfoldable pub parse_dashboard : Parser Annotation
unfolding parse_named_mixed_params extract_string_list extract_optional_string
parse_dashboard = do
  expect lparen
  params ← parse_named_mixed_params
  expect rparen
  pure (
      Annotation.dashboard (extract_string_list params.lists "widgets")
        (extract_optional_string params.scalars "layout")
        (extract_optional_string params.scalars "group_by")
        (extract_optional_string params.scalars "sort_default"))

abbrev pub quoted : String → String
quoted s = String.◌++◌ "'" (String.◌++◌ s "'")

pub data TenantWord : Type 0 where
  root parent : TenantWord

abbrev pub tenant_words : List (String × TenantWord)
tenant_words = ("root", TenantWord.root) ∷ ("parent", TenantWord.parent) ∷ []

unfoldable pub tenant_kind : TenantWord → Parser TenantKind
unfolding unquote_string schema_name_new
tenant_kind TenantWord.root = pure TenantKind.root
tenant_kind TenantWord.parent = do
  expect colon
  value ← expect_string_literal
  name ←
      from_result (λ e. invalid_schema_name (unquote_string value.text) value.span)
        (schema_name_new (unquote_string value.text))
  pure (TenantKind.child name)

unfoldable pub parse_tenant : Parser Annotation
unfolding tenant_kind find_arm
parse_tenant = do
  expect lparen
  tok ← expect_ident "tenant kind"
  word ←
      from_option (unexpected_token "'root' or 'parent'" (quoted tok.text) tok.span)
        (find_arm tok.text tenant_words)
  kind ← tenant_kind word
  expect rparen
  pure (Annotation.tenant kind)

abbrev pub hook_events : String
hook_events =
    "one of: before_validate, before_change, after_change, before_read, after_read, before_delete, after_delete, before_upload, after_upload, on_scan_complete"

unfoldable pub parse_hook : Parser Annotation
unfolding hook_from_str unquote_triple_string
parse_hook = do
  expect lparen
  tok ← expect_ident "hook event"
  event ←
      from_option (unexpected_token hook_events (quoted tok.text) tok.span) (hook_from_str tok.text)
  expect rparen
  intent ← expect_triple_string_literal
  pure (Annotation.hook event (unquote_triple_string intent.text))

abbrev pub valid_events : List String
valid_events = "created" ∷ "updated" ∷ "deleted" ∷ []

abbrev pub is_invalid_event : String → Bool
is_invalid_event event = not (any (λ v. v == event) valid_events)

-- The loop that returns at the first invalid event.
abbrev pub check_event : Span → Option String → Parser (Unit {0})
check_event span none = pure tt
check_event span (some event) =
    raise (unexpected_token "one of: created, updated, deleted" (quoted event) span)

unfoldable pub parse_webhook : SpannedToken → Parser Annotation
unfolding parse_named_mixed_params extract_string_list extract_optional_string
parse_webhook tok = do
  given ← peek_is lparen
  branch given
      (do
        expect lparen
        params ← parse_named_mixed_params
        expect rparen
        check_event tok.span (find is_invalid_event (extract_string_list params.lists "events"))
        pure (
            Annotation.webhook (extract_string_list params.lists "events")
              (extract_optional_string params.scalars "url")
              (extract_optional_string params.scalars "secret")))
      (pure (Annotation.webhook [] none none))

pub data AnnotationName : Type 0 where
  system version display access dashboard tenant hook webhook : AnnotationName

abbrev pub annotation_names : List (String × AnnotationName)
annotation_names =
    ("system", AnnotationName.system)
    ∷ ("version", AnnotationName.version)
    ∷ ("display", AnnotationName.display)
    ∷ ("access", AnnotationName.access)
    ∷ ("dashboard", AnnotationName.dashboard)
    ∷ ("tenant", AnnotationName.tenant)
    ∷ ("hook", AnnotationName.hook)
    ∷ ("webhook", AnnotationName.webhook)
    ∷ []

unfoldable pub annotation_body : SpannedToken → AnnotationName → Parser Annotation
unfolding parse_version parse_display parse_access parse_dashboard parse_tenant parse_hook
    parse_webhook
annotation_body tok AnnotationName.system = pure Annotation.system
annotation_body tok AnnotationName.version = parse_version
annotation_body tok AnnotationName.display = parse_display
annotation_body tok AnnotationName.access = parse_access
annotation_body tok AnnotationName.dashboard = parse_dashboard
annotation_body tok AnnotationName.tenant = parse_tenant
annotation_body tok AnnotationName.hook = parse_hook
annotation_body tok AnnotationName.webhook = parse_webhook tok

unfoldable pub parse_annotation : Parser Annotation
unfolding annotation_body find_arm
parse_annotation = do
  expect at
  tok ← expect_ident "annotation name"
  name ← from_option (unknown_annotation tok.text tok.span) (find_arm tok.text annotation_names)
  annotation_body tok name

unfoldable pub annotation_before : Token → Option (Parser Annotation)
unfolding parse_annotation
annotation_before t = if same_token t at then some parse_annotation else none

unfoldable pub parse_annotations : Parser (List Annotation)
unfolding annotation_before repeated
parse_annotations = repeated annotation_before
