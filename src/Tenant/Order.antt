-- ===== src/Tenant/Order.antt =====
-- crates/schema-forge-backend/src/tenant.rs: the order of the hierarchy.
use mathlib.Core.Path.{subst}
use schemaforge.Prelude.{
  ℕ, suc, zero, String, true, Option, none, some, List, [], ◌∷◌, ◌++◌, eq_iff, eqb, ◌≡◌, refl, sym,
  ap, ◌∙◌, arith, length, append_assoc, Bool-cases, inl, inr, Result, ok, err,
}
use schemaforge.Core.Schema.{SchemaDefinition}
use schemaforge.Core.Names.{SchemaName}
use schemaforge.Tenant.Config.{TenantLevel, TenantConfig, TenantConfigError}
use schemaforge.Tenant.Build.{
  member, find_level, check_cycles, retain, place_all, parent_placed, arrange, build, from_schemas,
  Scan, after_parents, after_cycles, config_of, place_under, build_scanned,
}

-- Each level has a parent, which is among the names seen or the schema of an earlier level.
abbrev pub ParentsFirst : List String → List TenantLevel → Type 0
ParentsFirst seen [] = Unit
ParentsFirst seen (l ∷ ls) =
    ((p : String) × (l.parent ≡ some p) × (member seen p ≡ true))
    × ParentsFirst (l.schema ∷ seen) ls

-- Below its root, if there is one, a hierarchy has parents first; without a root it is empty.
abbrev pub Rooted : Option SchemaName → List TenantLevel → Type 0
Rooted none ls = ls ≡ []
Rooted (some r) ls =
    (l : TenantLevel) × (tail : List TenantLevel) × (ls ≡ l ∷ tail)
    × (l.schema ≡ r)
    × ParentsFirst (r ∷ []) tail

abbrev pub placed_after : List String → List TenantLevel → List String
placed_after seen [] = seen
placed_after seen (l ∷ ls) = placed_after (l.schema ∷ seen) ls

placed_after-snoc :
    (seen : List String) (ls : List TenantLevel) (l : TenantLevel)
    → placed_after seen (ls ++ l ∷ []) ≡ l.schema ∷ placed_after seen ls
placed_after-snoc seen [] l = refl
placed_after-snoc seen (m ∷ ls) l = placed_after-snoc (m.schema ∷ seen) ls l

ParentsFirst-snoc :
    (seen : List String) (ls : List TenantLevel) (l : TenantLevel) (p : String)
    → ParentsFirst seen ls
    → l.parent ≡ some p
    → member (placed_after seen ls) p ≡ true
    → ParentsFirst seen (ls ++ l ∷ [])
ParentsFirst-snoc seen [] l p h e m = ((p, e, m), tt)
ParentsFirst-snoc seen (k ∷ ls) l p (h, hs) e m =
    (h, ParentsFirst-snoc (k.schema ∷ seen) ls l p hs e m)

pub value : {A : Type 0} {a b : A} → some a ≡ some b → a ≡ b
value e = ground arith

-- What is ordered is `head` and levels with their parents first, and their names have been placed.
pub record Built (head : List TenantLevel) (seen : List String) (ordered : List TenantLevel)
    (placed : List String) : Type 0 where
  pub tail : List TenantLevel
  pub split : ordered ≡ head ++ tail
  pub names : placed ≡ placed_after seen tail
  pub first : ParentsFirst seen tail

placed_parent :
    (placed : List String) (o : Option SchemaName)
    → parent_placed placed o ≡ true
    → (p : String) × (o ≡ some p) × (member placed p ≡ true)
placed_parent placed none h = cc h
placed_parent placed (some p) h = (p, refl, h)

module _ (head : List TenantLevel) (seen : List String) where
  Built-snoc :
      (ordered : List TenantLevel) (placed : List String) (l : TenantLevel)
      → Built head seen ordered placed
      → parent_placed placed l.parent ≡ true
      → Built head seen (ordered ++ l ∷ []) (l.schema ∷ placed)
  Built-snoc ordered placed l b h =
      let (p, e, m) = placed_parent placed l.parent h in
      record {
        tail = b.tail ++ l ∷ [];
        split = ap (λ o. o ++ l ∷ []) b.split ∙ append_assoc head b.tail (l ∷ []);
        names = ap (λ n. l.schema ∷ n) b.names ∙ sym (placed_after-snoc seen b.tail l);
        first =
            ParentsFirst-snoc seen b.tail l p b.first e (subst (λ n. member n p ≡ true) b.names m);
      }

  pub Built-retain :
      (ls ordered : List TenantLevel) (placed : List String)
      → Built head seen ordered placed
      → Built head seen (retain ls ordered placed).ordered (retain ls ordered placed).placed
  unfolding retain
  Built-retain [] ordered placed b = b
  Built-retain (l ∷ ls) ordered placed b = elim (Bool-cases (parent_placed placed l.parent)) [
    | inl e ↦
        rw e (
          Built-retain ls (ordered ++ l ∷ []) (l.schema ∷ placed) (Built-snoc ordered placed l b e))
    | inr e ↦ rw e (Built-retain ls ordered placed b)
  ]

  Built-place_all :
      (fuel : ℕ) (ordered : List TenantLevel) (placed : List String)
      (remaining after : List TenantLevel)
      → Built head seen ordered placed
      → place_all fuel ordered placed remaining ≡ some after
      → (tail : List TenantLevel) × (after ≡ head ++ tail) × ParentsFirst seen tail
  unfolding place_all
  Built-place_all fuel ordered placed [] after b h = (b.tail, sym (value h) ∙ b.split, b.first)
  Built-place_all zero ordered placed (l ∷ ls) after b h = cc h
  Built-place_all (suc fuel) ordered placed (l ∷ ls) after b h =
      let p = retain (l ∷ ls) ordered placed in
      let c = Built-retain (l ∷ ls) ordered placed b in
      elim (Bool-cases (eqb (length p.remaining) (length (l ∷ ls)))) [
        | inl e ↦
            let stop : some p.ordered ≡ some after = rw e at h in
            (c.tail, sym (value stop) ∙ c.split, c.first)
        | inr e ↦ Built-place_all fuel p.ordered p.placed p.remaining after c (rw e at h)
      ]

Rooted-none : (ls : List TenantLevel) → ParentsFirst [] ls → ls ≡ []
Rooted-none [] h = refl
Rooted-none (l ∷ ls) ((p, e, m), hs) = cc m

pub schema-find_level :
    (r : String) (levels : List TenantLevel) (l : TenantLevel)
    → find_level r levels ≡ some l
    → l.schema ≡ r
schema-find_level r [] l h = cc h
schema-find_level r (m ∷ levels) l h =
    ground (arith, eq_iff m.schema r, schema-find_level r levels l)

Rooted-place_under :
    (levels : List TenantLevel) (r : String) (o : Option TenantLevel) (ls : List TenantLevel)
    → find_level r levels ≡ o
    → place_under levels r o ≡ some ls
    → Rooted (some r) ls
Rooted-place_under levels r none ls f h = cc h
Rooted-place_under levels r (some l) ls f h =
    let (tail, e, first) =
      Built-place_all (l ∷ []) (r ∷ []) _ (l ∷ []) (r ∷ []) _ ls
        (record { tail = []; split = refl; names = refl; first = tt }) h in
    (l, tail, e, schema-find_level r levels l f, first)

Rooted-arrange :
    (root : Option SchemaName) (levels ls : List TenantLevel)
    → arrange root levels ≡ some ls
    → Rooted root ls
unfolding arrange
Rooted-arrange none levels ls h =
    let (tail, e, first) =
      Built-place_all [] [] _ [] [] _ ls
        (record { tail = []; split = refl; names = refl; first = tt }) h in
    e ∙ Rooted-none tail first
Rooted-arrange (some r) levels ls h = Rooted-place_under levels r (find_level r levels) ls refl h

abbrev RootedConfig : TenantConfig → Type 0
RootedConfig c = Rooted c.root_schema c.hierarchy

pub outcome :
    (c d : TenantConfig)
    → ◌≡◌ {A = Option (Result TenantConfig TenantConfigError)} (some (ok c)) (some (ok d))
    → c ≡ d
outcome c d e = ground arith

Rooted-config_of :
    (root : Option SchemaName) (o : Option (List TenantLevel)) (c : TenantConfig)
    → ((ls : List TenantLevel) → o ≡ some ls → Rooted root ls)
    → config_of root o ≡ some (ok c)
    → RootedConfig c
Rooted-config_of root none c k h = cc h
Rooted-config_of root (some ls) c k h = subst RootedConfig (outcome _ c h) (k ls refl)

Rooted-after_cycles :
    (root : Option SchemaName) (levels : List TenantLevel)
    (o : Option (Result (Unit {0}) TenantConfigError)) (c : TenantConfig)
    → after_cycles root levels o ≡ some (ok c)
    → RootedConfig c
Rooted-after_cycles root levels none c h = cc h
Rooted-after_cycles root levels (some (err e)) c h = cc h
Rooted-after_cycles root levels (some (ok u)) c h =
    Rooted-config_of root (arrange root levels) c (Rooted-arrange root levels) h

Rooted-after_parents :
    (root : Option SchemaName) (levels : List TenantLevel) (r : Result (Unit {0}) TenantConfigError)
    (c : TenantConfig)
    → after_parents root levels r ≡ some (ok c)
    → RootedConfig c
Rooted-after_parents root levels (err e) c h = cc h
Rooted-after_parents root levels (ok u) c h =
    Rooted-after_cycles root levels (check_cycles levels levels) c h

Rooted-build :
    (root : Option SchemaName) (levels : List TenantLevel) (c : TenantConfig)
    → build root levels ≡ some (ok c)
    → RootedConfig c
unfolding build
Rooted-build none [] c h = subst RootedConfig (outcome _ c h) refl
Rooted-build none (l ∷ ls) c h = Rooted-after_parents none (l ∷ ls) _ c h
Rooted-build (some r) levels c h = Rooted-after_parents (some r) levels _ c h

Rooted-build_scanned :
    (r : Result Scan TenantConfigError) (c : TenantConfig)
    → build_scanned r ≡ some (ok c)
    → RootedConfig c
Rooted-build_scanned (err e) c h = cc h
Rooted-build_scanned (ok scan) c h = Rooted-build scan.root scan.levels c h

-- The hierarchy of a configuration is empty if there is no root; otherwise it is the level of the root and
-- then levels each of which has a parent that comes before it.
pub from_schemas-Rooted :
    (schemas : List SchemaDefinition) (c : TenantConfig)
    → from_schemas schemas ≡ some (ok c)
    → Rooted c.root_schema c.hierarchy
unfolding from_schemas
from_schemas-Rooted schemas c h = Rooted-build_scanned _ c h
