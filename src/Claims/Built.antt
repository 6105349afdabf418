-- ===== src/Claims/Built.antt =====
-- When `build_expression` of crates/schema-forge-acton/src/authz/principal_claims.rs accepts a value.
use schemaforge.Prelude.{true, some, List, [], ◌∷◌, Result, ok, err, ◌>>=◌, ◌≡◌, refl, ◌↔◌}
use schemaforge.Claims.Json.{
  Json, Items, no_items, item, PrincipalClaimType, all_strings, json_matches_type,
}
use schemaforge.Claims.Config.{PrincipalClaimMapping}
use schemaforge.Claims.Extract.{
  Expressions, AdapterError, elements, expression_of, build_expression,
}

module _ (E : Expressions) (m : PrincipalClaimMapping) where
  elements-ok :
      (items : Items) → all_strings items ≡ true → (es : List E.Expr) × (elements E m items ≡ ok es)
  unfolding all_strings elements
  elements-ok no_items h = ([], refl)
  elements-ok (item (Json.string s) items) h =
      let (es, e) = elements-ok items h in (E.new_string s ∷ es, rw e refl)
  elements-ok (item _ items) h = cc h

  -- A value of the declared type gives an expression.
  pub expression_of-ok :
      (declared : PrincipalClaimType) (v : Json)
      → json_matches_type v declared ≡ true
      → (e : E.Expr) × (expression_of E m declared v ≡ ok e)
  unfolding json_matches_type
  expression_of-ok PrincipalClaimType.string_type (Json.string s) h = (_, refl)
  expression_of-ok PrincipalClaimType.long_type (Json.number (some z) text) h = (_, refl)
  expression_of-ok PrincipalClaimType.bool_type (Json.boolean b) h = (_, refl)
  expression_of-ok PrincipalClaimType.set_of_string (Json.array items) h =
      let (es, e) = elements-ok items h in (E.new_set es, rw e refl)
  expression_of-ok _ _ h = cc h

module _ (E : Expressions) (m : PrincipalClaimMapping) where
  elements-all_strings :
      (items : Items) (es : List E.Expr) → elements E m items ≡ ok es → all_strings items ≡ true
  unfolding all_strings elements
  elements-all_strings no_items es h = refl
  elements-all_strings (item (Json.string s) items) es h =
      by_rest (elements E m items) (elements-all_strings items) h
    where
      by_rest :
          (r : Result (List E.Expr) AdapterError)
          → ((es' : List E.Expr) → r ≡ ok es' → all_strings items ≡ true)
          → (r >>= λ es. ok (E.new_string s ∷ es)) ≡ ok es
          → all_strings items ≡ true
      by_rest (ok es') all h = all es' refl
      by_rest (err x) all h = cc h
  elements-all_strings (item _ items) es h = cc h

  expression_of-typed :
      (declared : PrincipalClaimType) (v : Json) (e : E.Expr)
      → expression_of E m declared v ≡ ok e
      → json_matches_type v declared ≡ true
  unfolding json_matches_type
  expression_of-typed PrincipalClaimType.string_type (Json.string s) e h = refl
  expression_of-typed PrincipalClaimType.long_type (Json.number (some z) text) e h = refl
  expression_of-typed PrincipalClaimType.bool_type (Json.boolean b) e h = refl
  expression_of-typed PrincipalClaimType.set_of_string (Json.array items) e h =
      by_elements (elements E m items) refl h
    where
      by_elements :
          (r : Result (List E.Expr) AdapterError)
          → elements E m items ≡ r
          → (r >>= λ es. ok (E.new_set es)) ≡ ok e
          → all_strings items ≡ true
      by_elements (ok es) q h = elements-all_strings items es q
      by_elements (err x) q h = cc h
  expression_of-typed _ _ e h = cc h

-- A claim of the token becomes an attribute exactly where its value has the type that is declared, the
-- test that the default has to pass when the configuration is loaded.
pub build_expression_iff :
    (E : Expressions) (m : PrincipalClaimMapping) (v : Json)
    → ((e : E.Expr) × (build_expression E m v ≡ ok e)) ↔ (json_matches_type v m.claim_type ≡ true)
unfolding build_expression
build_expression_iff E m v = (
  λ (e, h). expression_of-typed E m m.claim_type v e h,
  λ h. expression_of-ok E m m.claim_type v h,
)
