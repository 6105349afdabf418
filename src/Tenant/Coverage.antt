-- ===== src/Tenant/Coverage.antt =====
-- crates/schema-forge-backend/src/tenant.rs: the schemas that the scan finds.
use mathlib.Core.Path.{subst}
use schemaforge.Prelude.{
  String, Bool, true, false, Option, none, some, List, [], ◌∷◌, ◌++◌, ◌==◌, ◌||◌, eq_refl, ◌≡◌,
  refl, arith, any, All, All-map, if◌then◌else◌, Bool-cases, inl, inr, ok,
}
use schemaforge.Core.Names.{SchemaName}
use schemaforge.Core.Annotation.{Annotation, TenantKind, tenant}
use schemaforge.Core.Schema.{SchemaDefinition}
use schemaforge.Tenant.Config.{TenantLevel}
use schemaforge.Tenant.Build.{
  member, schema_names, Scan, scan_root, root_level, scan_annotation, scan_annotations,
  scan_schemas,
}
use schemaforge.Tenant.Total.{bind_inv, scanned}
use schemaforge.Tenant.Complete.{IsRootOr}

abbrev pub is_tenant : Annotation → Bool
is_tenant (tenant k) = true
is_tenant _ = false

-- What the scan keeps: a level without a parent is that of the root, and the names `ns` have levels.
pub record Found (ns : List String) (scan : Scan) : Type 0 where
  pub roots : All (IsRootOr scan.root) scan.levels
  pub listed : All (λ n. member (schema_names scan.levels) n ≡ true) ns

member-snoc :
    (n : String) (ls : List TenantLevel) (l : TenantLevel)
    → member (schema_names (ls ++ l ∷ [])) n ≡ (member (schema_names ls) n || (l.schema == n))
member-snoc n [] l = ground arith
member-snoc n (k ∷ ls) l = ground (arith, member-snoc n ls l)

All-snoc :
    (P : TenantLevel → Type 0) (ls : List TenantLevel) (l : TenantLevel)
    → All P ls
    → P l
    → All P (ls ++ l ∷ [])
All-snoc P [] l h k = (k, tt)
All-snoc P (m ∷ ls) l (h, hs) k = (h, All-snoc P ls l hs k)

-- A level that is appended keeps the names that have levels and adds its own.
listed-snoc :
    (ns : List String) (ls : List TenantLevel) (l : TenantLevel)
    → All (λ n. member (schema_names ls) n ≡ true) ns
    → All (λ n. member (schema_names (ls ++ l ∷ [])) n ≡ true) (l.schema ∷ ns)
listed-snoc ns ls l h = (
  ground (arith, member-snoc l.schema ls l, eq_refl l.schema),
  All-map (λ n m. ground (arith, member-snoc n ls l, m)) ns h,
)

Found-scan_root :
    (ns : List String) (name : String) (scan after : Scan)
    → Found ns scan
    → scan_root name scan.root scan ≡ ok after
    → Found (name ∷ ns) after
Found-scan_root ns name scan after f e = go scan.root refl e
  where
    go :
        (o : Option SchemaName)
        → scan.root ≡ o
        → scan_root name o scan ≡ ok after
        → Found (name ∷ ns) after
    go none r k = subst (Found (name ∷ ns)) (scanned _ after k) (record {
      roots =
          All-snoc (IsRootOr (some name)) scan.levels (root_level name)
            (All-map (λ l h p. cc (h p, r)) scan.levels f.roots) (λ p. refl);
      listed = listed-snoc ns scan.levels (root_level name) f.listed;
    })
    go (some existing) r k = cc k

-- An annotation adds the schema's name, if it is a tenant annotation.
Found-scan_annotation :
    (ns : List String) (s : SchemaDefinition) (a : Annotation) (scan after : Scan)
    → Found ns scan
    → scan_annotation s a scan ≡ ok after
    → Found (if is_tenant a then s.name ∷ ns else ns) after
unfolding scan_annotation
Found-scan_annotation ns s (tenant TenantKind.root) scan after f e =
    Found-scan_root ns s.name scan after f e
Found-scan_annotation ns s (tenant (TenantKind.child parent)) scan after f e =
    subst (Found (s.name ∷ ns)) (scanned _ after e) (record {
      roots = All-snoc (IsRootOr scan.root) scan.levels _ f.roots (λ p. cc p);
      listed = listed-snoc ns scan.levels _ f.listed;
    })
Found-scan_annotation ns s _ scan after f e = subst (Found ns) (scanned scan after e) f

abbrev names_from : String → List Annotation → List String → List String
names_from name [] ns = ns
names_from name (a ∷ as') ns = names_from name as' (if is_tenant a then name ∷ ns else ns)

Found-scan_annotations :
    (ns : List String) (s : SchemaDefinition) (as' : List Annotation) (scan after : Scan)
    → Found ns scan
    → scan_annotations s as' scan ≡ ok after
    → Found (names_from s.name as' ns) after
unfolding scan_annotations
Found-scan_annotations ns s [] scan after f e = subst (Found ns) (scanned scan after e) f
Found-scan_annotations ns s (a ∷ as') scan after f e =
    let (mid, b, c) = bind_inv (scan_annotation s a scan) _ after e in
    Found-scan_annotations _ s as' mid after (Found-scan_annotation ns s a scan mid f b) c

abbrev pub names_of : List SchemaDefinition → List String → List String
names_of [] ns = ns
names_of (s ∷ ss) ns = names_of ss (names_from s.name s.annotations ns)

pub Found-scan_schemas :
    (ns : List String) (ss : List SchemaDefinition) (scan after : Scan)
    → Found ns scan
    → scan_schemas ss scan ≡ ok after
    → Found (names_of ss ns) after
unfolding scan_schemas
Found-scan_schemas ns [] scan after f e = subst (Found ns) (scanned scan after e) f
Found-scan_schemas ns (s ∷ ss) scan after f e =
    let (mid, b, c) = bind_inv (scan_annotations s s.annotations scan) _ after e in
    Found-scan_schemas _ ss mid after (Found-scan_annotations ns s s.annotations scan mid f b) c

-- Among the names found is that of each schema with a tenant annotation.
member-names_from :
    (n name : String) (as' : List Annotation) (ns : List String)
    → member ns n ≡ true
    → member (names_from name as' ns) n ≡ true
member-names_from n name [] ns h = h
member-names_from n name (a ∷ as') ns h =
    member-names_from n name as' (if is_tenant a then name ∷ ns else ns) (more (is_tenant a))
  where
    more : (b : Bool) → member (if b then name ∷ ns else ns) n ≡ true
    more true = ground (arith, h)
    more false = h

member-tenant :
    (name : String) (as' : List Annotation) (ns : List String)
    → any is_tenant as' ≡ true
    → member (names_from name as' ns) name ≡ true
member-tenant name [] ns h = cc h
member-tenant name (a ∷ as') ns h = elim (Bool-cases (is_tenant a)) [
  | inl t ↦ rw t (member-names_from name name as' (name ∷ ns) (ground (arith, eq_refl name)))
  | inr f ↦ rw f (member-tenant name as' ns (rw f at h))
]

member-names_of :
    (n : String) (ss : List SchemaDefinition) (ns : List String)
    → member ns n ≡ true
    → member (names_of ss ns) n ≡ true
member-names_of n [] ns h = h
member-names_of n (s ∷ ss) ns h =
    member-names_of n ss (names_from s.name s.annotations ns)
      (member-names_from n s.name s.annotations ns h)

pub All-names_of :
    (ss : List SchemaDefinition) (ns : List String)
    → All (λ s. any is_tenant s.annotations ≡ true → member (names_of ss ns) s.name ≡ true) ss
All-names_of [] ns = tt
All-names_of (s ∷ ss) ns = (
  λ h. member-names_of s.name ss _ (member-tenant s.name s.annotations ns h),
  All-names_of ss (names_from s.name s.annotations ns),
)
