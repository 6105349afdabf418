-- ===== src/Query/Request.antt =====
-- crates/schema-forge-core/src/query.rs: `Query`, its builder methods and `validate`.
use schemaforge.Prelude.{
  ℕ, String, Bool, true, false, Option, none, some, List, [], ◌∷◌, ◌++◌, ◌≡◌, ◌≢◌, ◌↔◌, arith, eqb,
  if◌then◌else◌, Result, ok, err,
}
use schemaforge.Core.Value.{Externals}
use schemaforge.Query.Path.{FieldPath, QueryError, invalid_limit}
use schemaforge.Query.Filter.{Filter}

pub data SortOrder : Type 0 where
  ascending descending : SortOrder

-- A `SchemaId` is its text form.
pub record Query (X : Externals) : Type 0 where
  pub schema : String
  pub filter : Option (Filter X)
  pub sort : List (FieldPath × SortOrder)
  pub limit : Option ℕ
  pub offset : Option ℕ
  pub projection : Option (List String)
  pub include_total : Bool

module _ {X : Externals} where
  abbrev pub query_new : String → Query X
  query_new schema = record {
    schema = schema;
    filter = none;
    sort = [];
    limit = none;
    offset = none;
    projection = none;
    include_total = true;
  }

  abbrev pub without_total_count : Query X → Query X
  without_total_count q = record q { include_total = false }

  abbrev pub with_total_count : Query X → Bool → Query X
  with_total_count q include_total = record q { include_total = include_total }

  abbrev pub with_filter : Query X → Filter X → Query X
  with_filter q filter = record q { filter = some filter }

  abbrev pub with_sort : Query X → FieldPath → SortOrder → Query X
  with_sort q path order = record q { sort = q.sort ++ (path, order) ∷ [] }

  abbrev pub with_limit : Query X → ℕ → Query X
  with_limit q limit = record q { limit = some limit }

  abbrev pub with_offset : Query X → ℕ → Query X
  with_offset q offset = record q { offset = some offset }

  abbrev pub with_projection : Query X → List String → Query X
  with_projection q fields = record q { projection = some fields }

-- The `if let` on limit and offset, and the one on the limit alone.
abbrev pub check_limit : Option ℕ → Option ℕ → Result (Unit {0}) QueryError
check_limit (some limit) (some offset) = if eqb limit 0 then err (invalid_limit 0) else ok tt
check_limit (some limit) none = if eqb limit 0 then err (invalid_limit 0) else ok tt
check_limit none offset = ok tt

unfoldable pub validate : {X : Externals} → Query X → Result (Unit {0}) QueryError
validate q = check_limit q.limit q.offset

check_limit_iff :
    (limit offset : Option ℕ)
    → ((check_limit limit offset ≡ ok tt) ↔ (limit ≢ some 0))
      × ((check_limit limit offset ≡ err (invalid_limit 0)) ↔ (limit ≡ some 0))
check_limit_iff none offset = ground arith
check_limit_iff (some l) none = ground arith
check_limit_iff (some l) (some o) = ground arith

-- A query is valid exactly if its limit is not 0, whatever its offset; with a limit of 0 the error
-- says so.
pub validate_iff :
    {X : Externals} (q : Query X)
    → ((validate q ≡ ok tt) ↔ (q.limit ≢ some 0))
      × ((validate q ≡ err (invalid_limit 0)) ↔ (q.limit ≡ some 0))
unfolding validate
validate_iff q = check_limit_iff q.limit q.offset
