-- ===== src/Tenant/Placed.antt =====
-- crates/schema-forge-backend/src/tenant.rs: what the placing loop leaves behind.
use mathlib.Core.Path.{subst}
use schemaforge.Prelude.{
  ℕ, suc, zero, ◌≤◌, String, true, false, Option, none, some, List, [], ◌∷◌, ◌++◌, ◌==◌, eq_iff,
  eqb, ◌≡◌, ◌≢◌, ◌⊎◌, refl, sym, ap, ◌∙◌, arith, length, All, All-map, is_some, Bool-cases, inl,
  inr, ok,
}
use schemaforge.Core.Names.{SchemaName}
use schemaforge.Tenant.Config.{TenantLevel}
use schemaforge.Tenant.Build.{
  member, schema_names, parent_of, find_level, walk, retain, place_all, parent_placed,
}
use schemaforge.Tenant.Loops.{IsKnown, IsKnown-find_level, length-retain}
use schemaforge.Tenant.Order.{Built, Built-retain, placed_after, value}

abbrev pub In : TenantLevel → List TenantLevel → Type 0
In l [] = ⊥
In l (m ∷ ms) = (l ≡ m) ⊎ In l ms

-- Each of the levels is placed or remains.
abbrev pub Covered : List TenantLevel → List String → List TenantLevel → Type 0
Covered levels placed remaining = All (λ l. (member placed l.schema ≡ true) ⊎ In l remaining) levels

member-retain :
    (n : String) (ls ordered : List TenantLevel) (placed : List String)
    → member placed n ≡ true
    → member (retain ls ordered placed).placed n ≡ true
unfolding retain
member-retain n [] ordered placed h = h
member-retain n (l ∷ ls) ordered placed h = elim (Bool-cases (parent_placed placed l.parent)) [
  | inl e ↦ rw e (member-retain n ls (ordered ++ l ∷ []) (l.schema ∷ placed) (ground (arith, h)))
  | inr e ↦ rw e (member-retain n ls ordered placed h)
]

-- A level that a pass looks at is placed after it or still remains.
In-retain :
    (l : TenantLevel) (ls ordered : List TenantLevel) (placed : List String)
    → In l ls
    → (member (retain ls ordered placed).placed l.schema ≡ true)
      ⊎ In l (retain ls ordered placed).remaining
unfolding retain
In-retain l [] ordered placed h = absurd h
In-retain l (m ∷ ls) ordered placed (inl e) = elim (Bool-cases (parent_placed placed m.parent)) [
  | inl t ↦ rw t (
      inl (
        member-retain l.schema ls (ordered ++ m ∷ []) (m.schema ∷ placed)
          (ground (arith, (eq_iff m.schema l.schema).1 (ap (λ k. k.schema) (sym e))))))
  | inr f ↦ rw f (inr (inl e))
]
In-retain l (m ∷ ls) ordered placed (inr h) = elim (Bool-cases (parent_placed placed m.parent)) [
  | inl t ↦ rw t (In-retain l ls (ordered ++ m ∷ []) (m.schema ∷ placed) h)
  | inr f ↦ rw f (elim (In-retain l ls ordered placed h) [ inl a ↦ inl a | inr b ↦ inr (inr b) ])
]

All-retain :
    (P : TenantLevel → Type 0) (ls ordered : List TenantLevel) (placed : List String)
    → All P ls
    → All P (retain ls ordered placed).remaining
unfolding retain
All-retain P [] ordered placed h = tt
All-retain P (l ∷ ls) ordered placed (h, hs) = elim (Bool-cases (parent_placed placed l.parent)) [
  | inl e ↦ rw e (All-retain P ls (ordered ++ l ∷ []) (l.schema ∷ placed) hs)
  | inr e ↦ rw e (h, All-retain P ls ordered placed hs)
]

-- A pass that places nothing has found the parent of no level placed.
stuck-retain :
    (ls ordered : List TenantLevel) (placed : List String)
    → length (retain ls ordered placed).remaining ≡ length ls
    → All (λ l. parent_placed placed l.parent ≡ false) ls
unfolding retain
stuck-retain [] ordered placed h = tt
stuck-retain (l ∷ ls) ordered placed h = elim (Bool-cases (parent_placed placed l.parent)) [
  | inl e ↦
      let shorter = length-retain ls (ordered ++ l ∷ []) (l.schema ∷ placed) in
      let same : length (retain ls (ordered ++ l ∷ []) (l.schema ∷ placed)).remaining
          ≡ suc (length ls) =
        rw e at h in
      absurd (too_long _ _ shorter same)
  | inr e ↦
      let same : suc (length (retain ls ordered placed).remaining) ≡ suc (length ls) = rw e at h in
      (e, stuck-retain ls ordered placed (omega arith))
]
  where
    too_long : (m n : ℕ) → m ≤ n → m ≡ suc n → ⊥
    too_long m n a b = omega arith

Covered-retain :
    (levels ls ordered : List TenantLevel) (placed : List String)
    → Covered levels placed ls
    → Covered levels (retain ls ordered placed).placed (retain ls ordered placed).remaining
Covered-retain levels ls ordered placed c = All-map step levels c
  where
    step :
        (l : TenantLevel)
        → (member placed l.schema ≡ true) ⊎ In l ls
        → (member (retain ls ordered placed).placed l.schema ≡ true)
          ⊎ In l (retain ls ordered placed).remaining
    step l (inl m) = inl (member-retain l.schema ls ordered placed m)
    step l (inr i) = In-retain l ls ordered placed i

All-In :
    (P : TenantLevel → Type 0) (l : TenantLevel) (ls : List TenantLevel) → In l ls → All P ls → P l
All-In P l [] i h = absurd i
All-In P l (m ∷ ls) (inl e) (h, hs) = subst P (sym e) h
All-In P l (m ∷ ls) (inr i) (h, hs) = All-In P l ls i hs

-- A parent that is no placed name.
abbrev Unplaced : List String → Option SchemaName → Type 0
Unplaced placed o = (p : String) × (o ≡ some p) × (member placed p ≡ false)

Unplaced-stuck :
    (placed : List String) (o : Option SchemaName)
    → is_some o ≡ true
    → parent_placed placed o ≡ false
    → Unplaced placed o
Unplaced-stuck placed none h k = cc h
Unplaced-stuck placed (some p) h k = (p, refl, k)

-- Where every level is placed or has an unplaced parent, the level of an unplaced name has one.
Unplaced-find_level :
    (placed : List String) (p : String) (levels : List TenantLevel)
    → All (λ l. (member placed l.schema ≡ true) ⊎ Unplaced placed l.parent) levels
    → member placed p ≡ false
    → member (schema_names levels) p ≡ true
    → Unplaced placed (parent_of (find_level p levels))
Unplaced-find_level placed p [] c u k = cc k
Unplaced-find_level placed p (l ∷ levels) (c, cs) u k = elim (Bool-cases (l.schema == p)) [
  | inl e ↦ rw e (elim c [
    | inl m ↦ cc (u, subst (λ n. member placed n ≡ true) ((eq_iff l.schema p).0 e) m)
    | inr v ↦ v
  ])
  | inr e ↦ rw e (Unplaced-find_level placed p levels cs u (rw e at k))
]

module _ (levels : List TenantLevel) where
  -- A level that the checks have passed: it has a parent, known and not in a cycle.
  abbrev pub IsChild : TenantLevel → Type 0
  IsChild l =
      (is_some l.parent ≡ true)
      × IsKnown (schema_names levels) l.parent
      × (walk (length levels) levels l.schema (l.schema ∷ []) l.parent ≡ some (ok tt))

  module _ (known : All (λ l. IsKnown (schema_names levels) l.parent) levels) where
    -- From an unplaced name the walk never comes to a level without a parent.
    walk-Unplaced :
        (fuel : ℕ) (start : String) (visited placed : List String) (o : Option SchemaName)
        → All (λ l. (member placed l.schema ≡ true) ⊎ Unplaced placed l.parent) levels
        → Unplaced placed o
        → IsKnown (schema_names levels) o
        → walk fuel levels start visited o ≢ some (ok tt)
    unfolding walk
    walk-Unplaced fuel start visited placed none c (p, e, u) k h = cc e
    walk-Unplaced zero start visited placed (some q) c (p, e, u) k h = cc h
    walk-Unplaced (suc fuel) start visited placed (some q) c (p, e, u) k h =
        elim (Bool-cases (member visited q)) [
          | inl seen ↦ cc (rw seen at h)
          | inr new ↦
              walk-Unplaced fuel start (q ∷ visited) placed (parent_of (find_level q levels)) c
                (Unplaced-find_level placed q levels c
                  (subst (λ n. member placed n ≡ false) (sym (value e)) u) k)
                (IsKnown-find_level (schema_names levels) q levels known) (rw new at h)
        ]

    not_stuck :
        (placed : List String) (l : TenantLevel) (ls : List TenantLevel)
        → All IsChild (l ∷ ls)
        → Covered levels placed (l ∷ ls)
        → All (λ m. parent_placed placed m.parent ≡ false) (l ∷ ls)
        → ⊥
    not_stuck placed l ls h c s =
        let (some_parent, k, w) = h.0 in
        walk-Unplaced (length levels) l.schema (l.schema ∷ []) placed l.parent
          (All-map step levels c) (Unplaced-stuck placed l.parent some_parent s.0) k w
      where
        step :
            (m : TenantLevel)
            → (member placed m.schema ≡ true) ⊎ In m (l ∷ ls)
            → (member placed m.schema ≡ true) ⊎ Unplaced placed m.parent
        step m (inl a) = inl a
        step m (inr i) = inr (
            Unplaced-stuck placed m.parent (All-In IsChild m (l ∷ ls) i h).0
              (All-In (λ k. parent_placed placed k.parent ≡ false) m (l ∷ ls) i s))

    All-placed :
        (placed : List String)
        → Covered levels placed []
        → All (λ l. member placed l.schema ≡ true) levels
    All-placed placed c = All-map step levels c
      where
        step :
            (l : TenantLevel)
            → (member placed l.schema ≡ true) ⊎ In l []
            → member placed l.schema ≡ true
        step l (inl a) = a
        step l (inr i) = absurd i

    -- The loop ends with the schemas of all levels placed.
    pub place_all_complete :
        (head : List TenantLevel) (seen : List String) (fuel : ℕ) (ordered : List TenantLevel)
        (placed : List String) (remaining after : List TenantLevel)
        → Built head seen ordered placed
        → Covered levels placed remaining
        → All IsChild remaining
        → place_all fuel ordered placed remaining ≡ some after
        → (tail : List TenantLevel) × (after ≡ head ++ tail)
          × All (λ l. member (placed_after seen tail) l.schema ≡ true) levels
    unfolding place_all
    place_all_complete head seen fuel ordered placed [] after b c h e = (
      b.tail,
      sym (value e) ∙ b.split,
      subst (λ n. All (λ l. member n l.schema ≡ true) levels) b.names (All-placed placed c),
    )
    place_all_complete head seen zero ordered placed (l ∷ ls) after b c h e = cc e
    place_all_complete head seen (suc fuel) ordered placed (l ∷ ls) after b c h e =
        let p = retain (l ∷ ls) ordered placed in
        elim (Bool-cases (eqb (length p.remaining) (length (l ∷ ls)))) [
          | inl t ↦
              absurd
                (not_stuck placed l ls h c (stuck-retain (l ∷ ls) ordered placed (ground arith)))
          | inr f ↦
              place_all_complete head seen fuel p.ordered p.placed p.remaining after
                (Built-retain head seen (l ∷ ls) ordered placed b)
                (Covered-retain levels (l ∷ ls) ordered placed c)
                (All-retain IsChild (l ∷ ls) ordered placed h) (rw f at e)
        ]
