-- ===== src/Query/Validate.antt =====
-- What `validate_filter` of crates/schema-forge-core/src/query.rs accepts.
use schemaforge.Prelude.{
  Bool, true, false, Option, some, List, [], ◌∷◌, ◌++◌, ◌≡◌, ◌↔◌, refl, ap, arith, is_some, All-map,
  if◌then◌else◌, ok, Option-cases, Bool-cases, inl, inr,
}
use schemaforge.Core.Schema.{FieldDefinition, SchemaDefinition, field}
use schemaforge.Core.Value.{Externals, DynamicValue}
use schemaforge.Query.Path.{FieldPath, QueryError, unknown_field, root, is_simple}
use schemaforge.Query.Filter.{
  Filter, Filters, eq, ne, gt, gte, lt, lte, contains, starts_with, in_set, and, or, negate,
  no_filters, filter, check_field_exists, is_text_like, comparison_errors, text_errors,
  in_set_errors, empty_set_errors, compare_errors, match_errors, member_errors,
  collect_filter_errors, collect_all_errors, validate_filter, report,
}
use schemaforge.Query.Good.{
  check_type_compat→Fits, Fits→check_type_compat, append-eq-nil, for_each-eq-nil, GoodComparison,
  GoodSet, GoodMatch, is_text_like→TextLike, TextLike→is_text_like, GoodFilter, GoodFilters,
}

exists_nil :
    (path : FieldPath) (s : SchemaDefinition)
    → check_field_exists path s ≡ []
    → (f : FieldDefinition) × (field s (root path) ≡ some f)
unfolding check_field_exists
exists_nil path s h = elim (Option-cases (field s (root path))) [
  | inl o ↦ cc (h, ap (λ r. if is_some r then [] else unknown_field (root path) s.name ∷ []) o)
  | inr found ↦ found
]

exists_found :
    (path : FieldPath) (s : SchemaDefinition) (f : FieldDefinition)
    → field s (root path) ≡ some f
    → check_field_exists path s ≡ []
unfolding check_field_exists
exists_found path s f o = rw o

if-eq-nil {ℓ} :
    {A : Type ℓ} (b : Bool) (xs : List A) → ((if b then xs else []) ≡ []) ↔ (b ≡ true → xs ≡ [])
if-eq-nil true xs = (λ h _. h, λ h. h refl)
if-eq-nil false xs = (λ _ e. cc, λ _. refl)

text_errors_nil :
    (path : FieldPath) (f : FieldDefinition)
    → (is_simple path ≡ true → is_text_like f.field_type ≡ true)
    → text_errors path (some f) ≡ []
unfolding text_errors
text_errors_nil path f h = elim (Bool-cases (is_simple path)) [ inl t ↦ rw (t, h t) | inr n ↦ rw n ]

-- The two parts of every leaf's check: the field is found, and then `rest` finds no error.
leaf_iff :
    (s : SchemaDefinition) (path : FieldPath) (rest : Option FieldDefinition → List QueryError)
    → (check_field_exists path s ++ rest (field s (root path)) ≡ [])
      ↔ ((f : FieldDefinition) × (field s (root path) ≡ some f) × (rest (some f) ≡ []))
leaf_iff s path rest = (
  λ h.
      let e = (append-eq-nil (check_field_exists path s) _).0 h in
      let (f, o) = exists_nil path s e.0 in (f, o, rw o at e.1),
  λ (f, o, e). rw (exists_found path s f o, o) e,
)

match_iff :
    (s : SchemaDefinition) (path : FieldPath) → (match_errors s path ≡ []) ↔ GoodMatch s path
unfolding match_errors
match_iff s path = (
  λ h.
      let (f, o, e) = (leaf_iff s path (text_errors path)).0 h in
      (f, o, λ simple. is_text_like→TextLike f.field_type (ground (arith, e, simple))),
  λ (f, o, like).
      (leaf_iff s path (text_errors path)).1
        (f, o, text_errors_nil path f (λ simple. TextLike→is_text_like (like simple))),
)

module _ {X : Externals} (s : SchemaDefinition) (path : FieldPath) where
  compare_iff : (v : DynamicValue X) → (compare_errors s path v ≡ []) ↔ GoodComparison s path v
  unfolding compare_errors
  compare_iff v = (
    λ h.
        let (f, o, e) = (leaf_iff s path (comparison_errors path v)).0 h in
        (
          f,
          o,
          λ simple.
              check_type_compat→Fits (root path) f.field_type v
                ((if-eq-nil (is_simple path) _).0 e simple),
        ),
    λ (f, o, fits). (leaf_iff s path (comparison_errors path v)).1 (
      f,
      o,
      (if-eq-nil (is_simple path) _).1 (λ simple. Fits→check_type_compat (root path) (fits simple)),
    ),
  )

  member_iff : (vs : List (DynamicValue X)) → (member_errors s path vs ≡ []) ↔ GoodSet s path vs
  unfolding member_errors
  member_iff [] = (
    λ h.
        let (f, o, e) =
          (leaf_iff s path
              (λ r. empty_set_errors {X = X} path [] ++ in_set_errors {X = X} path [] r)).0
            h in
        cc e,
    λ (f, o, nonempty, fits). absurd (nonempty refl),
  )
  member_iff (v ∷ vs) = (
    λ h.
        let (f, o, e) = (leaf_iff s path (in_set_errors path (v ∷ vs))).0 h in
        (
          f,
          o,
          λ nil. cc nil,
          λ simple.
              All-map (λ w. check_type_compat→Fits (root path) f.field_type w) (v ∷ vs)
                ((for_each-eq-nil _ (v ∷ vs)).0 ((if-eq-nil (is_simple path) _).0 e simple)),
        ),
    λ (f, o, nonempty, fits). (leaf_iff s path (in_set_errors path (v ∷ vs))).1 (
      f,
      o,
      (if-eq-nil (is_simple path) _).1 (λ simple.
          (for_each-eq-nil _ (v ∷ vs)).1
            (All-map (λ w. Fits→check_type_compat (root path) {v = w}) (v ∷ vs) (fits simple))),
    ),
  )

report_ok : (es : List QueryError) → report es ≡ ok tt → es ≡ []
report_ok [] h = refl
report_ok (e ∷ es) h = cc

mutual
  unfolding collect_filter_errors GoodFilter

  collect_iff :
      {X : Externals} (s : SchemaDefinition) (f : Filter X)
      → (collect_filter_errors s f ≡ []) ↔ GoodFilter s f
  collect_iff s (eq path v) = compare_iff s path v
  collect_iff s (ne path v) = compare_iff s path v
  collect_iff s (gt path v) = compare_iff s path v
  collect_iff s (gte path v) = compare_iff s path v
  collect_iff s (lt path v) = compare_iff s path v
  collect_iff s (lte path v) = compare_iff s path v
  collect_iff s (contains path t) = match_iff s path
  collect_iff s (starts_with path t) = match_iff s path
  collect_iff s (in_set path vs) = member_iff s path vs
  collect_iff s (and fs) = collect_all_iff s fs
  collect_iff s (or fs) = collect_all_iff s fs
  collect_iff s (negate f) = collect_iff s f

  collect_all_iff :
      {X : Externals} (s : SchemaDefinition) (fs : Filters X)
      → (collect_all_errors s fs ≡ []) ↔ GoodFilters s fs
  collect_all_iff s no_filters = (λ h. tt, λ h. refl)
  collect_all_iff s (filter f fs) = (
    λ h.
        let e = (append-eq-nil (collect_filter_errors s f) (collect_all_errors s fs)).0 h in
        ((collect_iff s f).0 e.0, (collect_all_iff s fs).0 e.1),
    λ h.
        (append-eq-nil (collect_filter_errors s f) (collect_all_errors s fs)).1
          ((collect_iff s f).1 h.0, (collect_all_iff s fs).1 h.1),
  )

-- A filter passes validation exactly if every leaf, under any nesting of conjunctions, disjunctions
-- and negations, names a field of the schema in the first segment of its path; a membership test has a
-- value; and where the path has no other segment, the values of a comparison or a membership test fit
-- the type of the field, and a text match is on a text, a rich text or an enum.
pub validate_filter_iff :
    {X : Externals} (s : SchemaDefinition) (f : Filter X)
    → (validate_filter f s ≡ ok tt) ↔ GoodFilter s f
unfolding validate_filter
validate_filter_iff s f = (
  λ h. (collect_iff s f).0 (report_ok (collect_filter_errors s f) h),
  λ g. rw ((collect_iff s f).1 g),
)
