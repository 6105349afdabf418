-- ===== src/Tenant/Complete.antt =====
-- crates/schema-forge-backend/src/tenant.rs: the scanned levels in the hierarchy.
use mathlib.Core.Path.{subst}
use schemaforge.Prelude.{
  String, true, Option, none, some, List, [], ◌∷◌, ◌++◌, ◌==◌, ◌||◌, eq_iff, ◌≡◌, ◌⊎◌, refl, sym,
  ap, arith, length, All, All-map, keep, append_assoc, append-nil, is_some, Bool-cases, inl, inr,
  Option-cases, Result, ok, err,
}
use schemaforge.Core.Names.{SchemaName}
use schemaforge.Tenant.Config.{TenantLevel, TenantConfigError}
use schemaforge.Tenant.Build.{
  member, schema_names, find_level, walk, then_check, check_cycles, place_children, place_under,
  arrange,
}
use schemaforge.Tenant.Loops.{IsKnown}
use schemaforge.Tenant.Order.{placed_after, value, schema-find_level}
use schemaforge.Tenant.Placed.{In, Covered, IsChild, place_all_complete}

-- The placed names are the schemas of the hierarchy.
member-placed_after :
    (n : String) (head : List TenantLevel) (seen : List String) (tail : List TenantLevel)
    → (member seen n ≡ true → member (schema_names head) n ≡ true)
    → member (placed_after seen tail) n ≡ true
    → member (schema_names (head ++ tail)) n ≡ true
member-placed_after n head seen [] h m = rw (append-nil head) (h m)
member-placed_after n head seen (l ∷ ls) h m =
    let rest = member-placed_after n (head ++ l ∷ []) (l.schema ∷ seen) ls snoc m in
    rw (append_assoc head (l ∷ []) ls) at rest
  where
    last_member :
        (ks : List TenantLevel)
        → member (schema_names (ks ++ l ∷ [])) n ≡ (member (schema_names ks) n || (l.schema == n))
    last_member [] = ground arith
    last_member (k ∷ ks) = ground (arith, last_member ks)

    snoc : member (l.schema ∷ seen) n ≡ true → member (schema_names (head ++ l ∷ [])) n ≡ true
    snoc e = ground (arith, last_member head, h)

-- A level without a parent is that of the root.
abbrev pub IsRootOr : Option SchemaName → TenantLevel → Type 0
IsRootOr root l = l.parent ≡ none → root ≡ some l.schema

In-keep :
    (l : TenantLevel) (levels : List TenantLevel)
    → is_some l.parent ≡ true
    → In l levels
    → In l (keep (λ m. is_some m.parent) levels)
In-keep l [] h i = absurd i
In-keep l (m ∷ levels) h (inl e) = rw (subst (λ k. is_some k.parent ≡ true) e h) (inl e)
In-keep l (m ∷ levels) h (inr i) = elim (Bool-cases (is_some m.parent)) [
  | inl t ↦ rw t (inr (In-keep l levels h i))
  | inr f ↦ rw f (In-keep l levels h i)
]

All-In_self : (levels : List TenantLevel) → All (λ l. In l levels) levels
All-In_self [] = tt
All-In_self (l ∷ levels) = (inl refl, All-map (λ m i. inr i) levels (All-In_self levels))

both :
    (P Q : TenantLevel → Type 0) (levels : List TenantLevel)
    → All P levels
    → All Q levels
    → All (λ l. P l × Q l) levels
both P Q [] p q = tt
both P Q (l ∷ levels) (p, ps) (q, qs) = ((p, q), both P Q levels ps qs)

-- Before the loop: what is not the root remains.
Covered-keep :
    (levels : List TenantLevel) (root : Option SchemaName) (placed : List String)
    → ((r : String) → root ≡ some r → member placed r ≡ true)
    → All (IsRootOr root) levels
    → Covered levels placed (keep (λ l. is_some l.parent) levels)
Covered-keep levels root placed h roots =
    All-map step levels (both (IsRootOr root) (λ l. In l levels) levels roots (All-In_self levels))
  where
    step :
        (l : TenantLevel)
        → IsRootOr root l × In l levels
        → (member placed l.schema ≡ true) ⊎ In l (keep (λ m. is_some m.parent) levels)
    step l (r, i) = elim (Option-cases l.parent) [
      | inl e ↦ inl (h l.schema (r e))
      | inr (p, e) ↦ inr (In-keep l levels (ap is_some e) i)
    ]

then_check_inv :
    (a b : Option (Result (Unit {0}) TenantConfigError))
    → then_check a b ≡ some (ok tt)
    → (a ≡ some (ok tt)) × (b ≡ some (ok tt))
then_check_inv none b h = cc h
then_check_inv (some (ok u)) b h = (refl, h)
then_check_inv (some (err e)) b h = cc h

check_cycles_inv :
    (levels ls : List TenantLevel)
    → check_cycles levels ls ≡ some (ok tt)
    → All (λ l. walk (length levels) levels l.schema (l.schema ∷ []) l.parent ≡ some (ok tt)) ls
unfolding check_cycles
check_cycles_inv levels [] h = tt
check_cycles_inv levels (l ∷ ls) h =
    let (a, b) = then_check_inv _ (check_cycles levels ls) h in (a, check_cycles_inv levels ls b)

-- What is kept back has passed the checks.
IsChild-keep :
    (levels ls : List TenantLevel)
    → All (λ l. IsKnown (schema_names levels) l.parent) ls
    → All (λ l. walk (length levels) levels l.schema (l.schema ∷ []) l.parent ≡ some (ok tt)) ls
    → All (IsChild levels) (keep (λ l. is_some l.parent) ls)
IsChild-keep levels [] k w = tt
IsChild-keep levels (l ∷ ls) (k, ks) (w, ws) = elim (Bool-cases (is_some l.parent)) [
  | inl t ↦ rw t ((t, k, w), IsChild-keep levels ls ks ws)
  | inr f ↦ rw f (IsChild-keep levels ls ks ws)
]

abbrev pub IsInHierarchy : List TenantLevel → TenantLevel → Type 0
IsInHierarchy hierarchy l = member (schema_names hierarchy) l.schema ≡ true

module _ (levels : List TenantLevel)
    (known : All (λ l. IsKnown (schema_names levels) l.parent) levels)
    (acyclic : check_cycles levels levels ≡ some (ok tt)) where
  place_children_complete :
      (root : Option SchemaName) (head : List TenantLevel) (seen : List String)
      (after : List TenantLevel)
      → All (IsRootOr root) levels
      → ((r : String) → root ≡ some r → member seen r ≡ true)
      → ((n : String) → member seen n ≡ true → member (schema_names head) n ≡ true)
      → place_children levels head seen ≡ some after
      → All (IsInHierarchy after) levels
  place_children_complete root head seen after roots r s h =
      let (tail, e, all) =
        place_all_complete levels known head seen _ head seen _ after
          (record { tail = []; split = sym (append-nil head); names = refl; first = tt })
          (Covered-keep levels root seen r roots)
          (IsChild-keep levels levels known (check_cycles_inv levels levels acyclic)) h in
      subst (λ hs. All (IsInHierarchy hs) levels) (sym e)
        (All-map (λ l m. member-placed_after l.schema head seen tail (s l.schema) m) levels all)

  pub arrange_complete :
      (root : Option SchemaName) (after : List TenantLevel)
      → All (IsRootOr root) levels
      → arrange root levels ≡ some after
      → All (IsInHierarchy after) levels
  unfolding arrange
  arrange_complete none after roots h =
      place_children_complete none [] [] after roots (λ r e. cc e) (λ n m. m) h
  arrange_complete (some r) after roots h = under (find_level r levels) refl h
    where
      under :
          (o : Option TenantLevel)
          → find_level r levels ≡ o
          → place_under levels r o ≡ some after
          → All (IsInHierarchy after) levels
      under none f k = cc k
      under (some l) f k =
          place_children_complete (some r) (l ∷ []) (r ∷ []) after roots
            (λ s e. ground (arith, (eq_iff r s).1 (value e)))
            (λ n m. subst (λ q. member (q ∷ []) n ≡ true) (sym (schema-find_level r levels l f)) m)
            k
