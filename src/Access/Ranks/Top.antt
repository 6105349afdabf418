-- ===== src/Access/Ranks/Top.antt =====
-- The top of the role hierarchy of role_ranks.rs.
use mathlib.Core.Path.{subst}
use schemaforge.Prelude.{
  String, Bool, true, false, Option, none, some, List, [], ◌∷◌, ◌==◌, map, Result, ok,
  if◌then◌else◌, ◌≡◌, ◌≢◌, ◌↔◌, All, arith, eq_iff, Bool-cases, inl, inr, any, ap, sym, ◌∙◌,
}
use schemaforge.Prelude.Int.{ℤ, pos, negsuc, ◌≤ℤ◌}
use schemaforge.Access.Ranks.{
  RoleRanks, get, platform_admin_role, platform_admin_rank, larger, largest, max_or_zero, max_rank,
  rank_or_zero, from_toml_str_with_path,
}
use schemaforge.Access.Ranks.Loaded.{last_entry, GoodEntry, get-from_toml, from_toml-ok_iff}

-- The bound of the largest of a list, and its members.
largest-≤ :
    (bound best : ℤ) (ks : List ℤ)
    → best ≤ℤ bound
    → All (λ k. k ≤ℤ bound) ks
    → largest best ks ≤ℤ bound
unfolding largest
largest-≤ bound best [] h hs = h
largest-≤ bound best (k ∷ ks) h (g, gs) = largest-≤ bound (larger best k) ks (ground arith) gs

≤-largest : (best : ℤ) (ks : List ℤ) → best ≤ℤ largest best ks
unfolding largest
≤-largest best [] = ground arith
≤-largest best (k ∷ ks) = ground (arith, ≤-largest (larger best k) ks)

≤ℤ_trans : (a b c : ℤ) → a ≤ℤ b → b ≤ℤ c → a ≤ℤ c
≤ℤ_trans a b c h k = omega arith

larger-≥ : (bound a b : ℤ) → bound ≤ℤ b → bound ≤ℤ larger a b
larger-≥ bound a b h = ground arith

larger_self : (a : ℤ) → larger a a ≡ a
larger_self a = ground arith

abbrev below_top : ℤ
below_top = pos 9223372036854775806

below : (k : ℤ) → k ≤ℤ platform_admin_rank → k ≢ platform_admin_rank → k ≤ℤ below_top
below (pos n) a b = let other : n ≢ 9223372036854775807 = λ e. b (ap pos e) in ground arith
below (negsuc n) a b = ground arith

not_below : (k : ℤ) → k ≤ℤ below_top → k ≢ platform_admin_rank
not_below k h e = ground (arith, subst (λ j. j ≤ℤ below_top) e h)

reached : (k : ℤ) → k ≤ℤ platform_admin_rank → platform_admin_rank ≤ℤ k → k ≡ platform_admin_rank
reached (pos n) a b = ap pos (ground arith)
reached (negsuc n) a b = ground arith

last_entry-below :
    (role : String) (roles : List (String × ℤ)) (before : Option ℤ)
    → All GoodEntry roles
    → All (λ e. e.1 ≤ℤ platform_admin_rank) roles
    → rank_or_zero before ≤ℤ below_top
    → rank_or_zero (last_entry role roles before) ≤ℤ below_top
unfolding last_entry
last_entry-below role [] before g i h = h
last_entry-below role ((r, k) ∷ roles) before ((a, b, c, d), g) (i, is) h =
    last_entry-below role roles (if r == role then some k else before) g is (chosen (r == role))
  where
    chosen : (t : Bool) → rank_or_zero (if t then some k else before) ≤ℤ below_top
    chosen true = below k i d
    chosen false = h

-- Ranks of which only that of `platform_admin` is the highest.
module _ (rank : String → ℤ) (top : rank platform_admin_role ≡ platform_admin_rank)
    (others : (r : String) → (r == platform_admin_role) ≡ false → rank r ≤ℤ below_top) where
  at_most : (r : String) → rank r ≤ℤ platform_admin_rank
  at_most r = elim (Bool-cases (r == platform_admin_role)) [
    | inl a ↦ rw ((eq_iff r platform_admin_role).0 a, top) (ground arith)
    | inr a ↦ ground (arith, others r a)
  ]

  All-at_most : (names : List String) → All (λ k. k ≤ℤ platform_admin_rank) (map rank names)
  All-at_most [] = tt
  All-at_most (r ∷ names) = (at_most r, All-at_most names)

  All-below :
      (names : List String)
      → any (λ r. r == platform_admin_role) names ≡ false
      → All (λ k. k ≤ℤ below_top) (map rank names)
  All-below [] h = tt
  All-below (r ∷ names) h = (others r (ground arith), All-below names (ground arith))

  reaches :
      (best : ℤ) (names : List String)
      → any (λ r. r == platform_admin_role) names ≡ true
      → platform_admin_rank ≤ℤ largest best (map rank names)
  unfolding largest
  reaches best [] h = cc
  reaches best (r ∷ names) h = elim (Bool-cases (r == platform_admin_role)) [
    | inl a ↦
        let e : rank r ≡ platform_admin_rank = ap rank ((eq_iff r platform_admin_role).0 a) ∙ top in
        let l : larger best (rank r) ≤ℤ largest (larger best (rank r)) (map rank names) =
          ≤-largest (larger best (rank r)) (map rank names) in
        ≤ℤ_trans platform_admin_rank (larger best (rank r)) _
          (larger-≥ platform_admin_rank best (rank r)
            (subst (λ k. platform_admin_rank ≤ℤ k) (sym e) (ground arith)))
          l
    | inr a ↦ reaches (larger best (rank r)) names (rw a at h)
  ]

  reaches_cons :
      (r : String) (names : List String)
      → any (λ s. s == platform_admin_role) (r ∷ names) ≡ true
      → platform_admin_rank ≤ℤ largest (larger (rank r) (rank r)) (map rank names)
  unfolding largest
  reaches_cons r names h = reaches (rank r) (r ∷ names) h

  max_iff :
      (names : List String)
      → (max_or_zero (map rank names) ≡ platform_admin_rank)
        ↔ (any (λ r. r == platform_admin_role) names ≡ true)
  max_iff [] = (λ e. absurd (not_below (pos 0) (ground arith) e), λ h. cc)
  max_iff (r ∷ names) = (
    λ e. elim (Bool-cases (any (λ s. s == platform_admin_role) (r ∷ names))) [
      | inl t ↦ t
      | inr f ↦
          let (b, bs) = All-below (r ∷ names) f in
          absurd (not_below _ (largest-≤ below_top (rank r) (map rank names) b bs) e)
    ],
    λ h.
        let (b, bs) = All-at_most (r ∷ names) in
        reached _ (largest-≤ platform_admin_rank (rank r) (map rank names) b bs) (
          subst (λ k. platform_admin_rank ≤ℤ largest k (map rank names)) (larger_self (rank r))
            (reaches_cons r names h)),
  )

module _ (toml : String → Result (List (String × ℤ)) String) (input path : String)
    (roles : List (String × ℤ)) where
  -- Of ranks loaded from a text whose table holds 64-bit integers, the maximum over a list of role names
  -- is that of `platform_admin` exactly if `platform_admin` is in the list: no other role reaches it.
  pub max_rank-eq-top_iff :
      toml input ≡ ok roles
      → All (λ e. e.1 ≤ℤ platform_admin_rank) roles
      → (m : RoleRanks) → from_toml_str_with_path toml input path ≡ ok m
      → (names : List String)
      → (max_rank m names ≡ platform_admin_rank)
        ↔ (any (λ r. r == platform_admin_role) names ≡ true)
  unfolding max_rank
  max_rank-eq-top_iff parsed bounds m h names =
      max_iff (λ r. rank_or_zero (get r m))
        (ap rank_or_zero (get-from_toml toml input path roles parsed m h platform_admin_role))
        others names
    where
      good : All GoodEntry roles
      good = (from_toml-ok_iff toml input path roles parsed).0 (m, h)

      others :
          (r : String) → (r == platform_admin_role) ≡ false → rank_or_zero (get r m) ≤ℤ below_top
      others r n =
          let all = get-from_toml toml input path roles parsed m h r in
          let found : get r m ≡ last_entry r roles none = rw n at all in
          subst (λ o. rank_or_zero o ≤ℤ below_top) (sym found)
            (last_entry-below r roles none good bounds (ground arith))
