-- ===== src/Query/Path.antt =====
-- crates/schema-forge-core/src/query.rs: `FieldPath` and `QueryError`. A path is its segments; the
-- constructors never make an empty one, so the first segment stands apart from the others; an empty list of
-- segments, which the derived `Deserialize` would take, is not modelled.
pub mod RoundTrip
use Prim.Native.Char.{Char, code}
use Prim.Native.String
use schemaforge.Prelude.{
  ℕ, String, Bool, true, false, List, [], ◌∷◌, ◌==◌, any, eqb, length, ◌+◌, if◌then◌else◌, Result,
  ok, err,
}

pub data QueryError : Type 0 where
  empty_field_path : QueryError
  invalid_field_path : String → String → QueryError
  invalid_limit : ℕ → QueryError
  unknown_field : String → String → QueryError
  type_mismatch : String → String → String → QueryError
  empty_in_values : String → QueryError

pub record FieldPath : Type 0 where
  pub first : String
  pub others : List String

abbrev pub segments : FieldPath → List String
segments p = p.first ∷ p.others

-- std's `s.split('.')` never gives an empty list.
unfoldable pub split_dot : String → FieldPath
split_dot String.[] = record { first = ""; others = [] }
split_dot (String.◌∷◌ c s) =
    let rest = split_dot s in
    if eqb (code c) b'.'
    then record { first = ""; others = segments rest }
    else record rest { first = String.◌∷◌ c rest.first }

-- std's `join(".")`
unfoldable pub join_dot : String → List String → String
join_dot s [] = s
join_dot s (t ∷ ts) = String.◌++◌ s (String.◌∷◌ "." (join_dot t ts))

abbrev pub is_empty : String → Bool
is_empty s = s == ""

unfoldable pub as_dotted : FieldPath → String
unfolding join_dot
as_dotted p = join_dot p.first p.others

unfoldable pub parse : String → Result FieldPath QueryError
unfolding split_dot
parse s =
    if is_empty s
    then err empty_field_path
    else if any is_empty (segments (split_dot s))
    then err (invalid_field_path s "path contains empty segment")
    else ok (split_dot s)

unfoldable pub from_segments : List String → Result FieldPath QueryError
unfolding join_dot
from_segments [] = err empty_field_path
from_segments (s ∷ ss) =
    if any is_empty (s ∷ ss)
    then err (invalid_field_path (join_dot s ss) "path contains empty segment")
    else ok (record { first = s; others = ss })

abbrev pub single : String → FieldPath
single name = record { first = name; others = [] }

abbrev pub depth : FieldPath → ℕ
depth p = length (segments p)

abbrev pub is_simple : FieldPath → Bool
is_simple p = eqb (depth p) 1

abbrev pub root : FieldPath → String
root p = p.first

abbrev last_of : String → List String → String
last_of s [] = s
last_of s (t ∷ ts) = last_of t ts

abbrev pub leaf : FieldPath → String
leaf p = last_of p.first p.others
