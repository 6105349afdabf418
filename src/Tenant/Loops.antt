-- ===== src/Tenant/Loops.antt =====
-- crates/schema-forge-backend/src/tenant.rs: the fuel of the two loops.
use schemaforge.Prelude.{
  ℕ, suc, zero, ◌+◌, ◌≤◌, ◌<◌, String, true, Option, none, some, List, [], ◌∷◌, ◌++◌, ◌==◌, eq_refl,
  eqb, ◌≡◌, refl, ap, arith, length, All, map, is_some, Bool-cases, inl, inr, Result, ok, err,
  ◌>>=◌,
}
use schemaforge.Core.Names.{SchemaName}
use schemaforge.Tenant.Config.{TenantLevel, TenantConfigError}
use schemaforge.Tenant.Build.{
  member, schema_names, check_parent, check_parents, parent_of, find_level, walk, then_check,
  check_cycles, retain, place_all, parent_placed,
}
use schemaforge.Tenant.Pigeonhole.{NoRepeats, Within, pigeonhole}

length-map : {A B : Type 0} (f : A → B) (xs : List A) → length (map f xs) ≡ length xs
length-map f [] = refl
length-map f (x ∷ xs) = ap suc (length-map f xs)

-- The parent of a level is the schema of a level.
abbrev pub IsKnown : List String → Option SchemaName → Type 0
IsKnown names none = Unit
IsKnown names (some p) = member names p ≡ true

IsKnown-check_parent :
    (names : List String) (s : String) (o : Option SchemaName)
    → check_parent names s o ≡ ok tt
    → IsKnown names o
IsKnown-check_parent names s none h = tt
IsKnown-check_parent names s (some p) h = ground arith

pub both_ok :
    (r s : Result (Unit {0}) TenantConfigError) → (r >>= λ _. s) ≡ ok tt → (r ≡ ok tt) × (s ≡ ok tt)
both_ok (ok u) s h = (refl, h)
both_ok (err e) s h = cc h

pub check_parents_inv :
    (names : List String) (levels : List TenantLevel)
    → check_parents names levels ≡ ok tt
    → All (λ l. IsKnown names l.parent) levels
unfolding check_parents
check_parents_inv names [] h = tt
check_parents_inv names (l ∷ levels) h =
    let (a, b) = both_ok (check_parent names l.schema l.parent) (check_parents names levels) h in
    (IsKnown-check_parent names l.schema l.parent a, check_parents_inv names levels b)

pub IsKnown-find_level :
    (names : List String) (p : String) (levels : List TenantLevel)
    → All (λ l. IsKnown names l.parent) levels
    → IsKnown names (parent_of (find_level p levels))
IsKnown-find_level names p [] h = tt
IsKnown-find_level names p (l ∷ levels) (h, hs) = elim (Bool-cases (l.schema == p)) [
  | inl e ↦ rw e h
  | inr e ↦ rw e (IsKnown-find_level names p levels hs)
]

-- While the visited names are different and those of levels, fuel to exceed the levels is enough.
walk-some :
    (fuel : ℕ) (levels : List TenantLevel) (start : String) (visited : List String)
    (o : Option SchemaName)
    → All (λ l. IsKnown (schema_names levels) l.parent) levels
    → NoRepeats visited
    → Within visited (schema_names levels)
    → IsKnown (schema_names levels) o
    → length levels < length visited + fuel
    → is_some (walk fuel levels start visited o) ≡ true
unfolding walk
walk-some fuel levels start visited none g n w k b = ground arith
walk-some zero levels start visited (some p) g n w k b =
    let few = pigeonhole visited (schema_names levels) n w in
    let same = length-map (λ l. l.schema) levels in ground arith
walk-some (suc fuel) levels start visited (some p) g n w k b =
    elim (Bool-cases (member visited p)) [
      | inl seen ↦ rw seen refl
      | inr new ↦ rw new (
          walk-some fuel levels start (p ∷ visited) (parent_of (find_level p levels)) g (new, n)
            (k, w) (IsKnown-find_level (schema_names levels) p levels g) (omega arith))
    ]

-- Every level's schema is among the schemas of the levels.
abbrev pub IsListed : List String → TenantLevel → Type 0
IsListed names l = member names l.schema ≡ true

All-IsListed_cons :
    (n : String) (names : List String) (levels : List TenantLevel)
    → All (IsListed names) levels
    → All (IsListed (n ∷ names)) levels
All-IsListed_cons n names [] h = tt
All-IsListed_cons n names (l ∷ levels) (h, hs) =
    (ground (arith, h), All-IsListed_cons n names levels hs)

pub All-IsListed : (levels : List TenantLevel) → All (IsListed (schema_names levels)) levels
All-IsListed [] = tt
All-IsListed (l ∷ levels) = (
  ground (arith, eq_refl l.schema),
  All-IsListed_cons l.schema (schema_names levels) levels (All-IsListed levels),
)

is_some-then_check :
    (a b : Option (Result (Unit {0}) TenantConfigError))
    → is_some a ≡ true
    → is_some b ≡ true
    → is_some (then_check a b) ≡ true
is_some-then_check none b h k = h
is_some-then_check (some (ok u)) b h k = k
is_some-then_check (some (err e)) b h k = refl

pub check_cycles-some :
    (levels ls : List TenantLevel)
    → All (λ l. IsKnown (schema_names levels) l.parent) levels
    → All (IsListed (schema_names levels)) ls
    → All (λ l. IsKnown (schema_names levels) l.parent) ls
    → is_some (check_cycles levels ls) ≡ true
unfolding check_cycles
check_cycles-some levels [] g h k = refl
check_cycles-some levels (l ∷ ls) g (h, hs) (k, ks) =
    is_some-then_check _ _
      (walk-some (length levels) levels l.schema (l.schema ∷ []) l.parent g (refl, tt) (h, tt) k
        (ground arith))
      (check_cycles-some levels ls g hs ks)

pub length-retain :
    (ls ordered : List TenantLevel) (placed : List String)
    → length (retain ls ordered placed).remaining ≤ length ls
unfolding retain
length-retain [] ordered placed = ground arith
length-retain (l ∷ ls) ordered placed = elim (Bool-cases (parent_placed placed l.parent)) [
  | inl e ↦
      rw e (let shorter = length-retain ls (ordered ++ l ∷ []) (l.schema ∷ placed) in ground arith)
  | inr e ↦ rw e (let shorter = length-retain ls ordered placed in ground arith)
]

pub place_all-some :
    (fuel : ℕ) (ordered : List TenantLevel) (placed : List String) (remaining : List TenantLevel)
    → length remaining ≤ fuel
    → is_some (place_all fuel ordered placed remaining) ≡ true
unfolding place_all
place_all-some fuel ordered placed [] h = ground arith
place_all-some zero ordered placed (l ∷ ls) h = ground arith
place_all-some (suc fuel) ordered placed (l ∷ ls) h =
    let p = retain (l ∷ ls) ordered placed in
    elim (Bool-cases (eqb (length p.remaining) (length (l ∷ ls)))) [
      | inl e ↦ rw e refl
      | inr e ↦
          let shorter = length-retain (l ∷ ls) ordered placed in
          rw e (place_all-some fuel p.ordered p.placed p.remaining (ground arith))
    ]
