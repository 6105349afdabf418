-- ===== src/Tenant/Hierarchy.antt =====
-- crates/schema-forge-backend/src/tenant.rs: the schemas in the hierarchy.
use mathlib.Core.Path.{subst}
use schemaforge.Prelude.{
  String, true, Option, none, some, List, [], ◌∷◌, ◌==◌, eq_iff, ◌≡◌, refl, any, All, All-map,
  Bool-cases, inl, inr, Result, ok, err,
}
use schemaforge.Core.Names.{SchemaName}
use schemaforge.Core.Schema.{SchemaDefinition}
use schemaforge.Tenant.Config.{TenantLevel, TenantConfig, TenantConfigError}
use schemaforge.Tenant.Build.{
  member, schema_names, check_parents, check_cycles, arrange, build, build_scanned, after_parents,
  after_cycles, config_of, from_schemas, Scan, scan_schemas,
}
use schemaforge.Tenant.Loops.{IsKnown, check_parents_inv}
use schemaforge.Tenant.Order.{outcome}
use schemaforge.Tenant.Complete.{IsRootOr, IsInHierarchy, arrange_complete}
use schemaforge.Tenant.Coverage.{is_tenant, Found, Found-scan_schemas, names_of, All-names_of}

-- All levels are in the hierarchy of the configuration.
abbrev HasAll : List TenantLevel → TenantConfig → Type 0
HasAll levels c = All (IsInHierarchy c.hierarchy) levels

HasAll-config_of :
    (root : Option SchemaName) (levels : List TenantLevel) (o : Option (List TenantLevel))
    (c : TenantConfig)
    → ((after : List TenantLevel) → o ≡ some after → All (IsInHierarchy after) levels)
    → config_of root o ≡ some (ok c)
    → HasAll levels c
HasAll-config_of root levels none c k h = cc h
HasAll-config_of root levels (some after) c k h =
    subst (HasAll levels) (outcome _ c h) (k after refl)

HasAll-after_cycles :
    (root : Option SchemaName) (levels : List TenantLevel)
    (o : Option (Result (Unit {0}) TenantConfigError)) (c : TenantConfig)
    → All (IsRootOr root) levels
    → All (λ l. IsKnown (schema_names levels) l.parent) levels
    → check_cycles levels levels ≡ o
    → after_cycles root levels o ≡ some (ok c)
    → HasAll levels c
HasAll-after_cycles root levels none c r k e h = cc h
HasAll-after_cycles root levels (some (err d)) c r k e h = cc h
HasAll-after_cycles root levels (some (ok u)) c r k e h =
    HasAll-config_of root levels (arrange root levels) c
      (λ after q. arrange_complete levels k e root after r q) h

HasAll-after_parents :
    (root : Option SchemaName) (levels : List TenantLevel) (p : Result (Unit {0}) TenantConfigError)
    (c : TenantConfig)
    → All (IsRootOr root) levels
    → check_parents (schema_names levels) levels ≡ p
    → after_parents root levels p ≡ some (ok c)
    → HasAll levels c
HasAll-after_parents root levels (err d) c r e h = cc h
HasAll-after_parents root levels (ok u) c r e h =
    HasAll-after_cycles root levels (check_cycles levels levels) c r
      (check_parents_inv (schema_names levels) levels e) refl h

HasAll-build :
    (root : Option SchemaName) (levels : List TenantLevel) (c : TenantConfig)
    → All (IsRootOr root) levels
    → build root levels ≡ some (ok c)
    → HasAll levels c
unfolding build
HasAll-build none [] c r h = tt
HasAll-build none (l ∷ ls) c r h = HasAll-after_parents none (l ∷ ls) _ c r refl h
HasAll-build (some n) levels c r h = HasAll-after_parents (some n) levels _ c r refl h

member-HasAll :
    (n : String) (levels : List TenantLevel) (c : TenantConfig)
    → HasAll levels c
    → member (schema_names levels) n ≡ true
    → member (schema_names c.hierarchy) n ≡ true
member-HasAll n [] c a h = cc h
member-HasAll n (l ∷ levels) c (a, as') h = elim (Bool-cases (l.schema == n)) [
  | inl e ↦ subst (λ m. member (schema_names c.hierarchy) m ≡ true) ((eq_iff l.schema n).0 e) a
  | inr e ↦ member-HasAll n levels c as' (rw e at h)
]

All-member :
    (ns : List String) (ss : List SchemaDefinition) (levels : List TenantLevel) (c : TenantConfig)
    → HasAll levels c
    → All (λ n. member (schema_names levels) n ≡ true) ns
    → All (λ s. any is_tenant s.annotations ≡ true → member ns s.name ≡ true) ss
    → All
        (λ s. any is_tenant s.annotations ≡ true → member (schema_names c.hierarchy) s.name ≡ true)
        ss
All-member ns ss levels c a h k =
    All-map (λ s f t. member-HasAll s.name levels c a (listed ns h s.name (f t))) ss k
  where
    listed :
        (ms : List String)
        → All (λ n. member (schema_names levels) n ≡ true) ms
        → (n : String) → member ms n ≡ true
        → member (schema_names levels) n ≡ true
    listed [] h n m = cc m
    listed (x ∷ ms) (h, hs) n m = elim (Bool-cases (x == n)) [
      | inl e ↦ subst (λ q. member (schema_names levels) q ≡ true) ((eq_iff x n).0 e) h
      | inr e ↦ listed ms hs n (rw e at m)
    ]

complete-build_scanned :
    (ss : List SchemaDefinition) (r : Result Scan TenantConfigError) (c : TenantConfig)
    → ((scan : Scan) → r ≡ ok scan → Found (names_of ss []) scan)
    → build_scanned r ≡ some (ok c)
    → All
        (λ s. any is_tenant s.annotations ≡ true → member (schema_names c.hierarchy) s.name ≡ true)
        ss
complete-build_scanned ss (err e) c k h = cc h
complete-build_scanned ss (ok scan) c k h =
    let f = k scan refl in
    All-member (names_of ss []) ss scan.levels c (HasAll-build scan.root scan.levels c f.roots h)
      f.listed (All-names_of ss [])

-- Every schema with a tenant annotation is the schema of a level of the hierarchy: the placing of the
-- children never stops early, since the checks before it leave no cycle and no unknown parent.
pub from_schemas_complete :
    (ss : List SchemaDefinition) (c : TenantConfig)
    → from_schemas ss ≡ some (ok c)
    → All
        (λ s. any is_tenant s.annotations ≡ true → member (schema_names c.hierarchy) s.name ≡ true)
        ss
unfolding from_schemas
from_schemas_complete ss c h =
    complete-build_scanned ss (scan_schemas ss (record { root = none; levels = [] })) c
      (λ scan e. Found-scan_schemas [] ss _ scan (record { roots = tt; listed = tt }) e) h
