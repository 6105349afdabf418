-- ===== src/Access/Ranks.antt =====
-- crates/schema-forge-acton/src/authz/role_ranks.rs. The `BTreeMap` of ranks is an association list
-- without its order, which only `role_names` shows. Reading and parsing the file are outside: a parsed
-- table is the list of its entries, and a failed parse carries its message.
pub mod Loaded
pub mod Top
use schemaforge.Prelude.{
  String, Bool, true, false, Option, none, some, List, [], ◌∷◌, ◌==◌, ◌||◌, map, Result, ok, err,
  is_some, if◌then◌else◌, find,
}
use schemaforge.Prelude.Int.{ℤ, pos, ltb_ℤ}

pub data RoleRanksError : Type 0 where
  parse : String → String → RoleRanksError
  platform_admin_override : RoleRanksError
  invalid_rank : String → ℤ → RoleRanksError
  empty_role_name : RoleRanksError
  unregistered_role : String → RoleRanksError

-- i64::MAX
abbrev pub platform_admin_rank : ℤ
platform_admin_rank = pos 9223372036854775807

abbrev pub platform_admin_role : String
platform_admin_role = "platform_admin"

abbrev pub RoleRanks : Type 0
RoleRanks = List (String × ℤ)

unfoldable pub insert : String → ℤ → RoleRanks → RoleRanks
insert role rank [] = (role, rank) ∷ []
insert role rank ((r, k) ∷ ranks) =
    let rest = insert role rank ranks in if r == role then (role, rank) ∷ ranks else (r, k) ∷ rest

unfoldable pub get : String → RoleRanks → Option ℤ
get role [] = none
get role ((r, k) ∷ ranks) = if r == role then some k else get role ranks

unfoldable pub empty : RoleRanks
unfolding insert
empty = insert platform_admin_role platform_admin_rank []

-- `==` and `<` of i64.
abbrev pub eqb_ℤ : ℤ → ℤ → Bool
eqb_ℤ a b = if ltb_ℤ a b then false else if ltb_ℤ b a then false else true

-- The loop over the entries of the parsed table.
unfoldable pub load : RoleRanks → List (String × ℤ) → Result RoleRanks RoleRanksError
load ranks [] = ok ranks
load ranks ((role, rank) ∷ roles) =
    let rest = load (insert role rank ranks) roles in
    if role == ""
    then err empty_role_name
    else if role == platform_admin_role
    then err platform_admin_override
    else if ltb_ℤ rank (pos 0) || eqb_ℤ rank platform_admin_rank
    then err (invalid_rank role rank)
    else rest

abbrev pub load_parsed :
    Result (List (String × ℤ)) String → String → Result RoleRanks RoleRanksError
load_parsed (ok roles) path = load empty roles
load_parsed (err source) path = err (parse path source)

-- `toml` is the parser of the TOML package.
unfoldable pub from_toml_str_with_path :
    (String → Result (List (String × ℤ)) String) → String → String → Result RoleRanks RoleRanksError
from_toml_str_with_path toml input path = load_parsed (toml input) path

abbrev pub rank_or_zero : Option ℤ → ℤ
rank_or_zero none = pos 0
rank_or_zero (some k) = k

-- `Iterator::max`, then `unwrap_or(0)`.
abbrev pub larger : ℤ → ℤ → ℤ
larger a b = if ltb_ℤ b a then a else b

unfoldable pub largest : ℤ → List ℤ → ℤ
largest best [] = best
largest best (k ∷ ks) = largest (larger best k) ks

abbrev pub max_or_zero : List ℤ → ℤ
max_or_zero [] = pos 0
max_or_zero (k ∷ ks) = largest k ks

unfoldable pub max_rank : RoleRanks → List String → ℤ
max_rank ranks roles = max_or_zero (map (λ r. rank_or_zero (get r ranks)) roles)

unfoldable pub ensure_all_registered : RoleRanks → List String → Result (Unit {0}) RoleRanksError
ensure_all_registered ranks [] = ok tt
ensure_all_registered ranks (role ∷ roles) =
    let rest = ensure_all_registered ranks roles in
    if is_some (get role ranks) then rest else err (unregistered_role role)
