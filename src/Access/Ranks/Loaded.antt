-- ===== src/Access/Ranks/Loaded.antt =====
-- What the loader of role_ranks.rs accepts, and the ranks that it gives.
use schemaforge.Prelude.{
  ◌++◌, Option-cases, sym, ◌∙◌, ap, ℕ, String, true, false, Option, none, some, List, [], ◌∷◌, ◌==◌,
  ◌||◌, Result, ok, err, is_some, if◌then◌else◌, ◌≡◌, ◌≢◌, ◌↔◌, All, arith, refl, eq_iff,
  Bool-cases, inl, inr,
}
use schemaforge.Prelude.Int.{pos_part, ℤ, pos, negsuc, ltb_ℤ, ◌≤ℤ◌}
use schemaforge.Access.Ranks.{
  load_parsed, from_toml_str_with_path, RoleRanks, insert, get, empty, load, platform_admin_role,
  platform_admin_rank, eqb_ℤ, ensure_all_registered, unregistered_role,
}

-- An entry of a rank table that the loader takes.
abbrev pub GoodEntry : String × ℤ → Type 0
GoodEntry (role, rank) =
    (role ≢ "") × (role ≢ platform_admin_role) × (pos 0 ≤ℤ rank) × (rank ≢ platform_admin_rank)

-- The rank of a role in a table: of two entries the later one.
unfoldable pub last_entry : String → List (String × ℤ) → Option ℤ → Option ℤ
last_entry role [] before = before
last_entry role ((r, k) ∷ roles) before =
    last_entry role roles (if r == role then some k else before)

get-insert :
    (role r : String) (k : ℤ) (ranks : RoleRanks)
    → get role (insert r k ranks) ≡ (if r == role then some k else get role ranks)
unfolding get insert
get-insert role r k [] = refl
get-insert role r k ((s, l) ∷ ranks) =
    ground (arith, get-insert role r k ranks, eq_iff s r, eq_iff r role, eq_iff s role)

pos-injective : (m n : ℕ) → pos m ≡ pos n → m ≡ n
pos-injective m n e = ap pos_part e

rank_check_iff :
    (rank : ℤ)
    → ((ltb_ℤ rank (pos 0) || eqb_ℤ rank platform_admin_rank) ≡ false)
      ↔ ((pos 0 ≤ℤ rank) × (rank ≢ platform_admin_rank))
rank_check_iff (pos n) = (
  λ h. (ground arith, λ e. ground (arith, pos-injective n 9223372036854775807 e)),
  λ (a, b). ground (arith, b),
)
rank_check_iff (negsuc n) = (λ h. ground arith, λ h. ground arith)

empty_iff : (role : String) → (role == "") ≡ false ↔ (role ≢ "")
empty_iff role = ground (arith, eq_iff role "")

admin_iff : (role : String) → (role == platform_admin_role) ≡ false ↔ (role ≢ platform_admin_role)
admin_iff role = ground (arith, eq_iff role platform_admin_role)

-- The four outcomes of the checks on one entry.
entry_iff :
    (role : String) (rank : ℤ)
    → GoodEntry (role, rank) ↔ (
        ((role == "") ≡ false)
        × ((role == platform_admin_role) ≡ false)
        × ((ltb_ℤ rank (pos 0) || eqb_ℤ rank platform_admin_rank) ≡ false))
entry_iff role rank = (
  λ (a, b, c, d). ((empty_iff role).1 a, (admin_iff role).1 b, (rank_check_iff rank).1 (c, d)),
  λ (a, b, c).
      let (d, e) = (rank_check_iff rank).0 c in ((empty_iff role).0 a, (admin_iff role).0 b, d, e),
)

-- Loading succeeds on good entries, and only on those.
pub load-good :
    (ranks : RoleRanks) (roles : List (String × ℤ))
    → All GoodEntry roles
    → (m : RoleRanks) × (load ranks roles ≡ ok m)
unfolding load
load-good ranks [] g = (ranks, refl)
load-good ranks ((role, rank) ∷ roles) (g, gs) =
    let (m, e) = load-good (insert role rank ranks) roles gs in
    let (a, b, c) = (entry_iff role rank).0 g in (m, rw (a, b, c) e)

load_inv :
    (ranks m : RoleRanks) (role : String) (rank : ℤ) (roles : List (String × ℤ))
    → load ranks ((role, rank) ∷ roles) ≡ ok m
    → GoodEntry (role, rank) × (load (insert role rank ranks) roles ≡ ok m)
unfolding load
load_inv ranks m role rank roles h = elim (Bool-cases (role == "")) [
  | inl a ↦ cc (rw a at h)
  | inr a ↦ elim (Bool-cases (role == platform_admin_role)) [
    | inl b ↦ cc (rw (a, b) at h)
    | inr b ↦ elim (Bool-cases (ltb_ℤ rank (pos 0) || eqb_ℤ rank platform_admin_rank)) [
      | inl c ↦ cc (rw (a, b, c) at h)
      | inr c ↦ ((entry_iff role rank).1 (a, b, c), rw (a, b, c) at h)
    ]
  ]
]

pub good-load :
    (ranks m : RoleRanks) (roles : List (String × ℤ))
    → load ranks roles ≡ ok m
    → All GoodEntry roles
good-load ranks m [] h = tt
good-load ranks m ((role, rank) ∷ roles) h =
    let (g, e) = load_inv ranks m role rank roles h in
    (g, good-load (insert role rank ranks) m roles e)

pub get-load :
    (role : String) (ranks m : RoleRanks) (roles : List (String × ℤ))
    → load ranks roles ≡ ok m
    → get role m ≡ last_entry role roles (get role ranks)
unfolding last_entry load
get-load role ranks m [] h = ground arith
get-load role ranks m ((r, k) ∷ roles) h =
    let (g, e) = load_inv ranks m r k roles h in
    get-load role (insert r k ranks) m roles e
    ∙ ap (last_entry role roles) (get-insert role r k ranks)

-- A table of good entries says nothing of `platform_admin`.
last_entry-admin :
    (roles : List (String × ℤ)) (before : Option ℤ)
    → All GoodEntry roles
    → last_entry platform_admin_role roles before ≡ before
unfolding last_entry
last_entry-admin [] before g = refl
last_entry-admin ((r, k) ∷ roles) before ((a, b, c, d), gs) =
    ap (last_entry platform_admin_role roles)
      (ap (λ b. if b then some k else before) ((admin_iff r).1 b))
    ∙ last_entry-admin roles before gs

last-empty :
    (role : String) (roles : List (String × ℤ))
    → All GoodEntry roles
    → last_entry role roles (get role empty) ≡ (
        if role == platform_admin_role
        then some platform_admin_rank
        else last_entry role roles none)
unfolding get empty insert
last-empty role roles g = elim (Bool-cases (role == platform_admin_role)) [
  | inl a ↦
      rw ((eq_iff role platform_admin_role).0 a)
        (last_entry-admin roles (some platform_admin_rank) g)
  | inr a ↦ rw (a, other a) refl
]
  where
    other : (role == platform_admin_role) ≡ false → (platform_admin_role == role) ≡ false
    other a = ground (arith, eq_iff role platform_admin_role, eq_iff platform_admin_role role)

loaded :
    (toml : String → Result (List (String × ℤ)) String) (input path : String)
    (roles : List (String × ℤ))
    → toml input ≡ ok roles
    → from_toml_str_with_path toml input path ≡ load empty roles
unfolding from_toml_str_with_path
loaded toml input path roles h = ap (λ r. load_parsed r path) h

module _ (toml : String → Result (List (String × ℤ)) String) (input path : String)
    (roles : List (String × ℤ)) (parsed : toml input ≡ ok roles) where
  -- A text that parses to a table is loaded exactly if every entry has a role that is not empty and not
  -- `platform_admin`, and a rank that is not negative and not that of `platform_admin`.
  pub from_toml-ok_iff :
      ((m : RoleRanks) × (from_toml_str_with_path toml input path ≡ ok m)) ↔ All GoodEntry roles
  from_toml-ok_iff = (
    λ (m, e). good-load empty m roles (sym (loaded toml input path roles parsed) ∙ e),
    λ g. let (m, e) = load-good empty roles g in (m, loaded toml input path roles parsed ∙ e),
  )

  -- In the ranks that a text is loaded to, `platform_admin` has the highest rank of all 64-bit integers,
  -- and every other role the rank of its last entry in the table, or none if it has no entry.
  pub get-from_toml :
      (m : RoleRanks)
      → from_toml_str_with_path toml input path ≡ ok m
      → (role : String)
      → get role m ≡ (
          if role == platform_admin_role
          then some platform_admin_rank
          else last_entry role roles none)
  get-from_toml m h role =
      get-load role empty m roles (sym (loaded toml input path roles parsed) ∙ h)
      ∙ last-empty role roles
          (good-load empty m roles (sym (loaded toml input path roles parsed) ∙ h))

-- The registration check passes exactly if every role has a rank; if the roles before one have ranks and
-- it has none, it is the one that the check names.
pub ensure_all_registered_iff :
    (ranks : RoleRanks) (roles : List String)
    → ((ensure_all_registered ranks roles ≡ ok tt) ↔ All (λ r. is_some (get r ranks) ≡ true) roles)
      × ((before after : List String) (role : String)
          → roles ≡ before ++ role ∷ after
          → All (λ r. is_some (get r ranks) ≡ true) before
          → get role ranks ≡ none
          → ensure_all_registered ranks roles ≡ err (unregistered_role role))
unfolding ensure_all_registered
ensure_all_registered_iff ranks roles =
    (passes roles, λ before after role e h o. rw e (names before after role h o))
  where
    passes :
        (roles : List String)
        → (ensure_all_registered ranks roles ≡ ok tt)
          ↔ All (λ r. is_some (get r ranks) ≡ true) roles
    passes [] = (λ h. tt, λ h. refl)
    passes (r ∷ roles) = elim (Option-cases (get r ranks)) [
      | inl o ↦ (λ h. cc (rw o at h), λ h. cc (rw o at h.0))
      | inr (k, o) ↦ let a = passes roles in (λ h. (rw o, a.0 (rw o at h)), λ h. rw o (a.1 h.1))
    ]

    names :
        (before after : List String) (role : String)
        → All (λ r. is_some (get r ranks) ≡ true) before
        → get role ranks ≡ none
        → ensure_all_registered ranks (before ++ role ∷ after) ≡ err (unregistered_role role)
    names [] after role h o = rw o refl
    names (r ∷ before) after role (g, h) o = rw g (names before after role h o)
