-- ===== src/Tenant/Total.antt =====
-- crates/schema-forge-backend/src/tenant.rs: the termination of `TenantConfig::from_schemas`.
use mathlib.Core.Path.{subst}
use schemaforge.Prelude.{
  String, true, Option, none, some, List, [], ◌∷◌, ◌++◌, eq_refl, ◌≡◌, refl, arith, is_some, Result,
  ok, err, ◌>>=◌,
}
use schemaforge.Core.Names.{SchemaName}
use schemaforge.Core.Annotation.{Annotation, TenantKind, tenant}
use schemaforge.Core.Schema.{SchemaDefinition}
use schemaforge.Tenant.Config.{TenantLevel, TenantConfig, TenantConfigError}
use schemaforge.Tenant.Build.{
  schema_names, check_parents, find_level, check_cycles, arrange, build, from_schemas, Scan,
  scan_schemas, scan_annotations, scan_annotation, after_parents, after_cycles, config_of,
  scan_root, root_level, place_under, build_scanned,
}
use schemaforge.Tenant.Loops.{check_parents_inv, All-IsListed, check_cycles-some, place_all-some}

-- The root that the scan has found, if any, is the schema of one of its levels.
abbrev HasRoot : Scan → Type 0
HasRoot scan = (r : String) → scan.root ≡ some r → is_some (find_level r scan.levels) ≡ true

value : {A : Type 0} {a b : A} → some a ≡ some b → a ≡ b
value e = ground arith

returned : {A : Type 0} (o : Option A) → is_some o ≡ true → (a : A) × (o ≡ some a)
returned none h = cc
returned (some a) h = (a, refl)

find_level-append :
    (r : String) (ls ms : List TenantLevel)
    → is_some (find_level r ls) ≡ true
    → is_some (find_level r (ls ++ ms)) ≡ true
find_level-append r [] ms h = cc
find_level-append r (l ∷ ls) ms h = ground (arith, find_level-append r ls ms)

find_level-last :
    (ls : List TenantLevel) (l : TenantLevel) → is_some (find_level l.schema (ls ++ l ∷ [])) ≡ true
find_level-last [] l = ground (arith, eq_refl l.schema)
find_level-last (m ∷ ls) l = ground (arith, find_level-last ls l)

pub bind_inv :
    {A B : Type 0} (r : Result A TenantConfigError) (k : A → Result B TenantConfigError) (b : B)
    → (r >>= k) ≡ ok b
    → (a : A) × (r ≡ ok a) × (k a ≡ ok b)
bind_inv (ok a) k b e = (a, refl, e)
bind_inv (err d) k b e = cc

pub scanned : (s t : Scan) → ◌≡◌ {A = Result Scan TenantConfigError} (ok s) (ok t) → s ≡ t
scanned s t e = ground arith

HasRoot-scan_root :
    (name : String) (o : Option SchemaName) (scan after : Scan)
    → scan_root name o scan ≡ ok after
    → HasRoot after
HasRoot-scan_root name none scan after e = subst HasRoot (scanned _ after e) found
  where
    found : HasRoot (record { root = some name; levels = scan.levels ++ root_level name ∷ [] })
    found r h =
        subst (λ m. is_some (find_level m (scan.levels ++ root_level name ∷ [])) ≡ true) (value h)
          (find_level-last scan.levels (root_level name))
HasRoot-scan_root name (some existing) scan after e = cc

HasRoot-scan_annotation :
    (s : SchemaDefinition) (a : Annotation) (scan after : Scan)
    → HasRoot scan
    → scan_annotation s a scan ≡ ok after
    → HasRoot after
unfolding scan_annotation
HasRoot-scan_annotation s (tenant TenantKind.root) scan after h e =
    HasRoot-scan_root s.name scan.root scan after e
HasRoot-scan_annotation s (tenant (TenantKind.child parent)) scan after h e =
    subst HasRoot (scanned _ after e) (λ r k. find_level-append r scan.levels _ (h r k))
HasRoot-scan_annotation s _ scan after h e = subst HasRoot (scanned scan after e) h

HasRoot-scan_annotations :
    (s : SchemaDefinition) (as' : List Annotation) (scan after : Scan)
    → HasRoot scan
    → scan_annotations s as' scan ≡ ok after
    → HasRoot after
unfolding scan_annotations
HasRoot-scan_annotations s [] scan after h e = subst HasRoot (scanned scan after e) h
HasRoot-scan_annotations s (a ∷ as') scan after h e =
    let (mid, b, c) = bind_inv (scan_annotation s a scan) _ after e in
    HasRoot-scan_annotations s as' mid after (HasRoot-scan_annotation s a scan mid h b) c

pub HasRoot-scan_schemas :
    (ss : List SchemaDefinition) (scan after : Scan)
    → HasRoot scan
    → scan_schemas ss scan ≡ ok after
    → HasRoot after
unfolding scan_schemas
HasRoot-scan_schemas [] scan after h e = subst HasRoot (scanned scan after e) h
HasRoot-scan_schemas (s ∷ ss) scan after h e =
    let (mid, b, c) = bind_inv (scan_annotations s s.annotations scan) _ after e in
    HasRoot-scan_schemas ss mid after (HasRoot-scan_annotations s s.annotations scan mid h b) c

place_under-some :
    (levels : List TenantLevel) (r : String) (o : Option TenantLevel)
    → is_some o ≡ true
    → is_some (place_under levels r o) ≡ true
place_under-some levels r none h = cc
place_under-some levels r (some l) h = place_all-some _ (l ∷ []) (r ∷ []) _ (ground arith)

arrange-some :
    (root : Option SchemaName) (levels : List TenantLevel)
    → HasRoot (record { root = root; levels = levels })
    → is_some (arrange root levels) ≡ true
unfolding arrange
arrange-some none levels h = place_all-some _ [] [] _ (ground arith)
arrange-some (some r) levels h = place_under-some levels r (find_level r levels) (h r refl)

config_of-some :
    (root : Option SchemaName) (o : Option (List TenantLevel))
    → is_some o ≡ true
    → is_some (config_of root o) ≡ true
config_of-some root none h = h
config_of-some root (some hierarchy) h = refl

after_cycles-some :
    (root : Option SchemaName) (levels : List TenantLevel)
    (o : Option (Result (Unit {0}) TenantConfigError))
    → HasRoot (record { root = root; levels = levels })
    → is_some o ≡ true
    → is_some (after_cycles root levels o) ≡ true
after_cycles-some root levels none h k = k
after_cycles-some root levels (some (err e)) h k = refl
after_cycles-some root levels (some (ok u)) h k =
    config_of-some root (arrange root levels) (arrange-some root levels h)

after_parents-some :
    (root : Option SchemaName) (levels : List TenantLevel) (r : Result (Unit {0}) TenantConfigError)
    → HasRoot (record { root = root; levels = levels })
    → check_parents (schema_names levels) levels ≡ r
    → is_some (after_parents root levels r) ≡ true
after_parents-some root levels (err e) h k = refl
after_parents-some root levels (ok u) h k =
    let known = check_parents_inv (schema_names levels) levels k in
    after_cycles-some root levels (check_cycles levels levels) h
      (check_cycles-some levels levels known (All-IsListed levels) known)

build-some :
    (root : Option SchemaName) (levels : List TenantLevel)
    → HasRoot (record { root = root; levels = levels })
    → is_some (build root levels) ≡ true
unfolding build
build-some none [] h = refl
build-some none (l ∷ ls) h = after_parents-some none (l ∷ ls) _ h refl
build-some (some r) levels h = after_parents-some (some r) levels _ h refl

build_scanned-some :
    (r : Result Scan TenantConfigError)
    → ((scan : Scan) → r ≡ ok scan → HasRoot scan)
    → is_some (build_scanned r) ≡ true
build_scanned-some (err e) h = refl
build_scanned-some (ok scan) h = build-some scan.root scan.levels (h scan refl)

-- Building the tenant configuration always ends with a configuration or an error: the walk up the
-- parents and the placing of the children come to their end, and the root is found, for every list of
-- schemas.
pub from_schemas-total :
    (schemas : List SchemaDefinition)
    → (r : Result TenantConfig TenantConfigError) × (from_schemas schemas ≡ some r)
unfolding from_schemas
from_schemas-total schemas = returned _ (
    build_scanned-some (scan_schemas schemas (record { root = none; levels = [] }))
      (λ scan e. HasRoot-scan_schemas schemas _ scan (λ r h. cc h) e))
