-- ===== src/Tenant/Build.antt =====
-- crates/schema-forge-backend/src/tenant.rs: `TenantConfig::from_schemas`. A `HashSet` is the list of what
-- it has taken. The two `while` loops run on fuel, and `none` is the end of the fuel or a panic.
use schemaforge.Prelude.{
  ℕ, suc, zero, String, Bool, false, Option, none, some, List, [], ◌∷◌, ◌++◌, ◌==◌, eqb, length,
  any, find, keep, is_some, map, if◌then◌else◌, Result, ok, err, ◌>>=◌,
}
use schemaforge.Core.Names.{lower_case, upper_case, exchange, FieldName, SchemaName}
use schemaforge.Core.Annotation.{Annotation, TenantKind, tenant}
use schemaforge.Core.Schema.{FieldDefinition, SchemaDefinition, find_field}
use schemaforge.Tenant.Config.{
  TenantLevel, TenantConfig, TenantConfigError, multiple_roots, invalid_parent, cycle_detected,
}

-- std's `to_lowercase` on the ASCII letters, of which a schema name is made beside its digits.
unfoldable pub to_lowercase : String → String
to_lowercase String.[] = String.[]
to_lowercase (String.◌∷◌ c s) = String.◌∷◌ (exchange c upper_case lower_case) (to_lowercase s)

abbrev name_of : Option FieldDefinition → Option FieldName
name_of none = none
name_of (some f) = some f.name

unfoldable pub find_parent_field : SchemaDefinition → SchemaName → Option FieldName
unfolding to_lowercase
find_parent_field schema parent = name_of (find_field (to_lowercase parent) schema.fields)

-- `root` and `levels` as the first loop fills them.
pub record Scan : Type 0 where
  pub root : Option SchemaName
  pub levels : List TenantLevel

abbrev pub root_level : SchemaName → TenantLevel
root_level name = record { schema = name; parent = none; parent_field = none }

abbrev pub scan_root : SchemaName → Option SchemaName → Scan → Result Scan TenantConfigError
scan_root name none scan =
    ok (record { root = some name; levels = scan.levels ++ root_level name ∷ [] })
scan_root name (some existing) scan = err (multiple_roots existing name)

unfoldable pub scan_annotation :
    SchemaDefinition → Annotation → Scan → Result Scan TenantConfigError
unfolding find_parent_field
scan_annotation schema (tenant TenantKind.root) scan = scan_root schema.name scan.root scan
scan_annotation schema (tenant (TenantKind.child parent)) scan = ok (record scan {
  levels =
      scan.levels
      ++ record {
        schema = schema.name;
        parent = some parent;
        parent_field = find_parent_field schema parent;
      }
        ∷ [];
})
scan_annotation schema _ scan = ok scan

unfoldable pub scan_annotations :
    SchemaDefinition → List Annotation → Scan → Result Scan TenantConfigError
unfolding scan_annotation
scan_annotations schema [] scan = ok scan
scan_annotations schema (a ∷ annotations) scan =
    scan_annotation schema a scan >>= scan_annotations schema annotations

unfoldable pub scan_schemas : List SchemaDefinition → Scan → Result Scan TenantConfigError
unfolding scan_annotations
scan_schemas [] scan = ok scan
scan_schemas (s ∷ schemas) scan = scan_annotations s s.annotations scan >>= scan_schemas schemas

-- `set.contains(name)`
abbrev pub member : List String → String → Bool
member set name = any (λ n. n == name) set

abbrev pub schema_names : List TenantLevel → List String
schema_names levels = map (λ l. l.schema) levels

abbrev pub check_parent :
    List String → String → Option SchemaName → Result (Unit {0}) TenantConfigError
check_parent names schema none = ok tt
check_parent names schema (some parent) =
    if member names parent then ok tt else err (invalid_parent schema parent)

unfoldable pub check_parents : List String → List TenantLevel → Result (Unit {0}) TenantConfigError
check_parents names [] = ok tt
check_parents names (l ∷ levels) =
    check_parent names l.schema l.parent >>= λ _. check_parents names levels

abbrev pub parent_of : Option TenantLevel → Option SchemaName
parent_of none = none
parent_of (some l) = l.parent

abbrev pub find_level : String → List TenantLevel → Option TenantLevel
find_level name levels = find (λ l. l.schema == name) levels

-- The walk up the parents of `start`.
unfoldable pub walk :
    ℕ
    → List TenantLevel
    → String
    → List String
    → Option SchemaName
    → Option (Result (Unit {0}) TenantConfigError)
walk fuel levels start visited none = some (ok tt)
walk zero levels start visited (some parent) = none
walk (suc fuel) levels start visited (some parent) =
    let rest = walk fuel levels start (parent ∷ visited) (parent_of (find_level parent levels)) in
    if member visited parent then some (err (cycle_detected start)) else rest

abbrev pub then_check :
    Option (Result (Unit {0}) TenantConfigError)
    → Option (Result (Unit {0}) TenantConfigError)
    → Option (Result (Unit {0}) TenantConfigError)
then_check none rest = none
then_check (some (err e)) rest = some (err e)
then_check (some (ok u)) rest = rest

unfoldable pub check_cycles :
    List TenantLevel → List TenantLevel → Option (Result (Unit {0}) TenantConfigError)
unfolding walk
check_cycles levels [] = some (ok tt)
check_cycles levels (l ∷ ls) =
    then_check (walk (length levels) levels l.schema (l.schema ∷ []) l.parent)
      (check_cycles levels ls)

pub record Placing : Type 0 where
  pub ordered : List TenantLevel
  pub placed : List String
  pub remaining : List TenantLevel

abbrev pub parent_placed : List String → Option SchemaName → Bool
parent_placed placed none = false
parent_placed placed (some parent) = member placed parent

abbrev pub keep_back : TenantLevel → Placing → Placing
keep_back l p = record p { remaining = l ∷ p.remaining }

-- `remaining.retain(…)`
unfoldable pub retain : List TenantLevel → List TenantLevel → List String → Placing
retain [] ordered placed = record { ordered = ordered; placed = placed; remaining = [] }
retain (l ∷ ls) ordered placed =
    let taken = retain ls (ordered ++ l ∷ []) (l.schema ∷ placed) in
    let kept = retain ls ordered placed in
    if parent_placed placed l.parent then taken else keep_back l kept

-- The loop until nothing remains or a pass places nothing; what it gives is `ordered`.
unfoldable pub place_all :
    ℕ → List TenantLevel → List String → List TenantLevel → Option (List TenantLevel)
place_all fuel ordered placed [] = some ordered
place_all zero ordered placed (l ∷ ls) = none
place_all (suc fuel) ordered placed (l ∷ ls) =
    let p = retain (l ∷ ls) ordered placed in
    let rest = place_all fuel p.ordered p.placed p.remaining in
    if eqb (length p.remaining) (length (l ∷ ls)) then some p.ordered else rest

-- The children, to be placed after what is ordered.
abbrev pub place_children :
    List TenantLevel → List TenantLevel → List String → Option (List TenantLevel)
place_children levels ordered placed =
    let remaining = keep (λ l. is_some l.parent) levels in
    place_all (length remaining) ordered placed remaining

abbrev pub place_under : List TenantLevel → String → Option TenantLevel → Option (List TenantLevel)
place_under levels root_name none = none
place_under levels root_name (some l) = place_children levels (l ∷ []) (root_name ∷ [])

unfoldable pub arrange : Option SchemaName → List TenantLevel → Option (List TenantLevel)
arrange none levels = place_children levels [] []
arrange (some root_name) levels = place_under levels root_name (find_level root_name levels)

abbrev pub config_of :
    Option SchemaName → Option (List TenantLevel) → Option (Result TenantConfig TenantConfigError)
config_of root none = none
config_of root (some hierarchy) = some (ok (record { root_schema = root; hierarchy = hierarchy }))

abbrev pub after_cycles :
    Option SchemaName
    → List TenantLevel
    → Option (Result (Unit {0}) TenantConfigError)
    → Option (Result TenantConfig TenantConfigError)
after_cycles root levels none = none
after_cycles root levels (some (err e)) = some (err e)
after_cycles root levels (some (ok u)) = config_of root (arrange root levels)

abbrev pub after_parents :
    Option SchemaName
    → List TenantLevel
    → Result (Unit {0}) TenantConfigError
    → Option (Result TenantConfig TenantConfigError)
after_parents root levels (err e) = some (err e)
after_parents root levels (ok u) = after_cycles root levels (check_cycles levels levels)

unfoldable pub build :
    Option SchemaName → List TenantLevel → Option (Result TenantConfig TenantConfigError)
build none [] = some (ok (record { root_schema = none; hierarchy = [] }))
build root levels = after_parents root levels (check_parents (schema_names levels) levels)

abbrev pub build_scanned :
    Result Scan TenantConfigError → Option (Result TenantConfig TenantConfigError)
build_scanned (err e) = some (err e)
build_scanned (ok scan) = build scan.root scan.levels

unfoldable pub from_schemas : List SchemaDefinition → Option (Result TenantConfig TenantConfigError)
from_schemas schemas = build_scanned (scan_schemas schemas (record { root = none; levels = [] }))
