-- ===== src/Dsl/RoundTrip/Annotations.antt =====
-- The schema annotations that printer.rs writes are read back by parser.rs.
use Prim.Native.String
use Prim.Native.Char.{Char}
use schemaforge.Prelude.{
  arith, ℕ, zero, suc, ◌<◌, ◌^◌, String, Bool, true, false, none, some, List, [], ◌∷◌, ◌++◌, ◌≡◌,
  refl, All, ok, inl, inr,
}
use schemaforge.Prelude.Int.{pos}
use schemaforge.Core.Names.Valid.{
  AllChars, SnakeChar, SnakeCase, AlphanumericChar, PascalCase, field_name_new_iff,
  schema_name_new_iff,
}
use schemaforge.Core.Annotation.{Annotation, TenantKind}
use schemaforge.Dsl.Token.{Token, Span}
use schemaforge.Dsl.Literals.{parse_signed}
use schemaforge.Dsl.Decimal.{to_signed_decimal, to_decimal}
use schemaforge.Dsl.Decimal.RoundTrip.{parse_signed-to_signed_decimal}
use schemaforge.Dsl.Annotations.{as_u32, parse_annotations, parse_annotation, annotation_before}
use schemaforge.Dsl.Good.{GoodFieldName, GoodSchemaName}
use schemaforge.Dsl.RoundTrip.Text.{PlainChar, Plain, unquote_string-quote}
use Prim.Native.Nat.{◌%◌}
use schemaforge.Core.Constraints.{schema_version_new}
use schemaforge.Dsl.Annotations.{parse_version, parse_display, parse_tenant, parse_webhook}
use schemaforge.Dsl.Printer.{lparen, rparen, integer, quoted}
use schemaforge.Dsl.Printer.Notes.{print_annotation}
use schemaforge.Dsl.RoundTrip.{Reads-then}
use schemaforge.Dsl.Annotations.{TenantWord, tenant_words}
use schemaforge.Dsl.Printer.{space, colon}
use schemaforge.Dsl.Outcome.{Parser, pure, ◌>>=◌, ◌>>◌}
use schemaforge.Dsl.Cursor.{expect}
use schemaforge.Dsl.Printer.{Pieces}
use schemaforge.Dsl.Error.{DslError, unexpected_token}
use schemaforge.Dsl.Outcome.{Tokens}
use schemaforge.Dsl.Cursor.{peeked}
use schemaforge.Dsl.Printer.{joined}
use schemaforge.Dsl.Printer.Schemas.{print_above}
use schemaforge.Dsl.RoundTrip.Fields.{Reads-line_end}
use schemaforge.Dsl.RoundTrip.Repeats.{Item, Reads-repeated}
use schemaforge.Dsl.RoundTrip.Params.{is_lparen}
use schemaforge.Dsl.RoundTrip.Lists.{Ahead-never, never, Reads-weaken}
use schemaforge.Dsl.Annotations.{annotation_body, tenant_kind}
use schemaforge.Dsl.Cursor.{is_ident}
use schemaforge.Dsl.Printer.Notes.{print_tenant}
use schemaforge.Core.Tokens.Match.{find_arm}
use schemaforge.Dsl.RoundTrip.{
  Ahead, place, Reads, Reads-pure, Reads-blank, Reads-word, Reads-peek_end, Reads-option,
  Reads-result, Reads-then,
}

snake-PlainChar : (c : Char) → SnakeChar c → PlainChar c
snake-PlainChar c (inl h) = (λ e. omega (arith, e, h), λ e. omega (arith, e, h))
snake-PlainChar c (inr (inl h)) = (λ e. omega (arith, e, h), λ e. omega (arith, e, h))
snake-PlainChar c (inr (inr h)) = (λ e. omega (arith, e, h), λ e. omega (arith, e, h))

alphanumeric-PlainChar : (c : Char) → AlphanumericChar c → PlainChar c
alphanumeric-PlainChar c (inl h) = (λ e. omega (arith, e, h), λ e. omega (arith, e, h))
alphanumeric-PlainChar c (inr (inl h)) = (λ e. omega (arith, e, h), λ e. omega (arith, e, h))
alphanumeric-PlainChar c (inr (inr h)) = (λ e. omega (arith, e, h), λ e. omega (arith, e, h))

AllChars-weaken :
    (P Q : Char → Type 0) → ((c : Char) → P c → Q c) → (s : String) → AllChars P s → AllChars Q s
AllChars-weaken P Q h String.[] a = tt
AllChars-weaken P Q h (String.◌∷◌ c s) a = (h c a.0, AllChars-weaken P Q h s a.1)

-- A field name needs no escape between quotes.
snake-Plain : (s : String) → SnakeCase s → Plain s
snake-Plain String.[] h = absurd h
snake-Plain (String.◌∷◌ c s) (h, hs) =
    (snake-PlainChar c (inl h), AllChars-weaken SnakeChar PlainChar snake-PlainChar s hs)

pascal-Plain : (s : String) → PascalCase s → Plain s
pascal-Plain String.[] h = absurd h
pascal-Plain (String.◌∷◌ c s) (h, hs) = (
  alphanumeric-PlainChar c (inr (inl h)),
  AllChars-weaken AlphanumericChar PlainChar alphanumeric-PlainChar s hs,
)

-- An annotation without lists: no access rule, no dashboard, no webhook with parameters, and no hook.
abbrev pub PrintableAnnotation : Annotation → Type 0
PrintableAnnotation (Annotation.version v) = (0 < v) × (v < 2 ^ 32)
PrintableAnnotation (Annotation.display field) = GoodFieldName field
PrintableAnnotation Annotation.system = Unit
PrintableAnnotation (Annotation.tenant (TenantKind.child parent)) = GoodSchemaName parent
PrintableAnnotation (Annotation.tenant TenantKind.root) = Unit
PrintableAnnotation (Annotation.webhook [] none none) = Unit
PrintableAnnotation _ = ⊥

mod-small : (v : ℕ) → v < 2 ^ 32 → v % 2 ^ 32 ≡ v
mod-small v h = omega arith

parse_decimal : (v : ℕ) → v < 2 ^ 32 → parse_signed (to_decimal v) ≡ some (pos v)
unfolding to_signed_decimal
parse_decimal v h = parse_signed-to_signed_decimal (pos v) (omega (arith, h), omega arith)

accepted_version : (v : ℕ) → 0 < v → v < 2 ^ 32 → schema_version_new (as_u32 (pos v)) ≡ ok v
unfolding as_u32 schema_version_new
accepted_version zero h b = absurd (omega (arith, h))
accepted_version (suc v) h b = rw (mod-small (suc v) b) refl

Reads-version :
    (v : ℕ)
    → 0 < v
    → v < 2 ^ 32
    → Reads never parse_version
        (lparen ∷ integer (to_decimal v) ∷ rparen ∷ [])
        (Annotation.version v)
unfolding parse_version
Reads-version v h b = Reads-word _ refl λ span. Reads-word _ refl λ span'.
    Reads-option _ _ (pos v) (parse_decimal v b)
      (Reads-result _ _ v (accepted_version v h b) (Reads-word _ refl λ span''. Reads-pure))

Reads-display :
    (n : String)
    → GoodFieldName n
    → Reads never parse_display (lparen ∷ quoted n ∷ rparen ∷ []) (Annotation.display n)
unfolding parse_display
Reads-display n h = Reads-word _ refl λ span. Reads-word _ refl λ span'.
    rw (unquote_string-quote n (snake-Plain n h.0)) (
      Reads-result _ _ n ((field_name_new_iff n n).1 (refl, h.0, h.1))
        (Reads-word _ refl λ span''. Reads-pure))

Reads-parent :
    (n : String)
    → GoodSchemaName n
    → Reads never
        (tenant_kind TenantWord.parent)
        (colon ∷ space ∷ quoted n ∷ [])
        (TenantKind.child n)
unfolding tenant_kind
Reads-parent n h = Reads-word _ refl λ span. Reads-blank (
    Reads-word _ refl λ span'.
      rw (unquote_string-quote n (pascal-Plain n h.0))
        (Reads-result _ _ n ((schema_name_new_iff n n).1 (refl, h.0, h.1)) Reads-pure))

Reads-root : Reads never (tenant_kind TenantWord.root) [] TenantKind.root
unfolding tenant_kind
Reads-root = Reads-pure

root_word : find_arm "root" tenant_words ≡ some TenantWord.root
unfolding find_arm
root_word = refl

parent_word : find_arm "parent" tenant_words ≡ some TenantWord.parent
unfolding find_arm
parent_word = refl

-- `parse_tenant` behind its first word
abbrev after_word : TenantWord → Parser Annotation
after_word w = tenant_kind w >>= λ kind. expect Token.rparen >> pure (Annotation.tenant kind)

Reads-after_word :
    (w : TenantWord) (k : TenantKind) (ps : Pieces)
    → Reads never (tenant_kind w) ps k
    → Reads never (after_word w) (ps ++ rparen ∷ []) (Annotation.tenant k)
Reads-after_word w k ps h =
    Reads-then never _ h (Reads-word _ refl λ span. Reads-pure) (λ at rest c. Ahead-never _)

abbrev refused : String → Span → DslError
refused text span =
    unexpected_token "'root' or 'parent'" (String.◌∷◌ "'" (String.◌++◌ text "'")) span

Reads-tenant :
    (k : TenantKind)
    → PrintableAnnotation (Annotation.tenant k)
    → Reads never parse_tenant (lparen ∷ print_tenant k ++ rparen ∷ []) (Annotation.tenant k)
unfolding parse_tenant
Reads-tenant TenantKind.root h = Reads-word _ refl λ span. Reads-word is_ident refl λ span'.
    Reads-option (refused "root" span') after_word TenantWord.root root_word
      (Reads-after_word TenantWord.root TenantKind.root [] Reads-root)
Reads-tenant (TenantKind.child n) h = Reads-word _ refl λ span. Reads-word is_ident refl λ span'.
    Reads-option (refused "parent" span') after_word TenantWord.parent parent_word
      (Reads-after_word TenantWord.parent (TenantKind.child n) _ (Reads-parent n h))

pub Reads-annotation :
    (a : Annotation)
    → PrintableAnnotation a
    → Reads is_lparen parse_annotation (print_annotation a) a
unfolding parse_annotation annotation_body print_annotation find_arm parse_webhook place
Reads-annotation (Annotation.version v) h =
    Reads-word _ refl
      λ span. Reads-word is_ident refl λ span'. Reads-weaken (Reads-version v h.0 h.1) λ u e. refl
Reads-annotation (Annotation.display n) h =
    Reads-word _ refl
      λ span. Reads-word is_ident refl λ span'. Reads-weaken (Reads-display n h) λ u e. refl
Reads-annotation Annotation.system h =
    Reads-word _ refl λ span. Reads-word is_ident refl λ span'. Reads-pure
Reads-annotation (Annotation.tenant k) h =
    Reads-word _ refl
      λ span. Reads-word is_ident refl λ span'. Reads-weaken (Reads-tenant k h) λ u e. refl
Reads-annotation (Annotation.webhook [] none none) h =
    Reads-word _ refl
      λ span. Reads-word is_ident refl λ span'. Reads-peek_end Token.lparen (λ u e. e) Reads-pure
Reads-annotation _ h = absurd h

-- Only the keyword `schema` ends the annotations.
abbrev pub not_schema : Token → Bool
not_schema Token.schema = false
not_schema _ = true

schema_stops : (u : Token) → not_schema u ≡ false → annotation_before u ≡ none
unfolding annotation_before
schema_stops Token.schema h = refl
schema_stops _ h = cc

schema_fits : (u : Token) → not_schema u ≡ false → is_lparen u ≡ false
schema_fits Token.schema h = refl
schema_fits _ h = cc

starts_at :
    (a : Annotation)
    → PrintableAnnotation a
    → (at : ℕ → Span) (rest : Tokens)
    → (peeked annotation_before (place at (print_above a) ++ rest) ≡ some parse_annotation)
      × Ahead is_lparen (place at (print_above a) ++ rest)
unfolding annotation_before place print_annotation
starts_at (Annotation.version v) h at rest = (refl, refl)
starts_at (Annotation.display n) h at rest = (refl, refl)
starts_at Annotation.system h at rest = (refl, refl)
starts_at (Annotation.tenant k) h at rest = (refl, refl)
starts_at (Annotation.webhook [] none none) h at rest = (refl, refl)
starts_at _ h at rest = absurd h

annotation-Item :
    (a : Annotation) → PrintableAnnotation a → Item annotation_before is_lparen (print_above a) a
annotation-Item a h = record {
  parser = parse_annotation;
  picked = λ at rest. (starts_at a h at rest).0;
  read = Reads-line_end (print_annotation a) "\n" (Reads-annotation a h);
  starts = λ at rest. (starts_at a h at rest).1;
}

All-annotation_items :
    (as' : List Annotation)
    → All PrintableAnnotation as'
    → All (λ a. Item annotation_before is_lparen (print_above a) a) as'
All-annotation_items [] h = tt
All-annotation_items (a ∷ as') h = (annotation-Item a h.0, All-annotation_items as' h.1)

-- Printed annotations are read back in front of the keyword `schema`.
pub Reads-annotations :
    (as' : List Annotation)
    → All PrintableAnnotation as'
    → Reads not_schema parse_annotations (joined print_above as') as'
unfolding parse_annotations
Reads-annotations as' h =
    Reads-repeated annotation_before is_lparen not_schema schema_stops schema_fits print_above as'
      (All-annotation_items as' h)
