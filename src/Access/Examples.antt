-- ===== src/Access/Examples.antt =====
-- A rank table, an engine and a database, and the theorems of access control at them.
use schemaforge.Prelude.{◌++◌, inl}
use schemaforge.Core.FieldType.{FieldAnnotation}
use schemaforge.Prelude.{
  ℕ, String, Bool, true, false, ◌&&◌, Option, none, some, List, [], ◌∷◌, ◌==◌, eq_iff, ◌≡◌, ◌↔◌,
  refl, All, any, is_some, if◌then◌else◌, Result, ok, err, arith,
}
use schemaforge.Prelude.Int.{ℤ, pos, ◌≤ℤ◌}
use schemaforge.Core.FieldType.{FieldType, field_access}
use schemaforge.Core.Schema.{FieldDefinition, SchemaDefinition, field_new, field}
use schemaforge.Core.Value.{Externals, DynamicValue}
use schemaforge.Query.Filter.{Filter, Filters, eq, and, no_filters, filter}
use schemaforge.Query.Request.{Query, query_new}
use schemaforge.Access.Ranks.{
  RoleRanks, from_toml_str_with_path, load, empty, insert, get, max_rank, ensure_all_registered,
  unregistered_role, platform_admin_role, platform_admin_rank,
}
use schemaforge.Access.Ranks.Loaded.{
  GoodEntry, last_entry, from_toml-ok_iff, get-from_toml, ensure_all_registered_iff,
}
use schemaforge.Access.Ranks.Top.{max_rank-eq-top_iff}
use schemaforge.Access.Engine.{Engine, Entity, FieldMap, ActionVerb, FieldDirection, get_field}
use schemaforge.Tenant.Config.{TenantConfig}
use schemaforge.Access.Fields.{
  Shown, Withheld, filter_entity_fields, get_field-filter_entity_fields,
}
use schemaforge.Access.Scope.{inject_tenant_scope, inject_tenant_on_create}
use schemaforge.Access.Hidden.{strip_hidden, IsShowing, get_field-strip_hidden}
use schemaforge.Access.Scope.Isolation.{
  Meaning, matches, IsVisible, matches-inject_tenant_scope_iff, created-matches-inject_tenant_scope,
}

-- A parser that gives one table for every text.
abbrev table : List (String × ℤ)
table = ("manager", pos 50) ∷ ("viewer", pos 1) ∷ []

abbrev toml : String → Result (List (String × ℤ)) String
toml input = ok table

abbrev ranks : RoleRanks
ranks = (platform_admin_role, platform_admin_rank) ∷ table

ranks_loaded : from_toml_str_with_path toml "roles" "ranks.toml" ≡ ok ranks
unfolding from_toml_str_with_path load empty insert
ranks_loaded = refl

from_toml-ok_iff_example :
    ((m : RoleRanks) × (from_toml_str_with_path toml "roles" "ranks.toml" ≡ ok m))
    ↔ All GoodEntry table
from_toml-ok_iff_example = from_toml-ok_iff toml "roles" "ranks.toml" table refl

get-from_toml_example : get "viewer" ranks ≡ (
    if "viewer" == platform_admin_role
    then some platform_admin_rank
    else last_entry "viewer" table none)
get-from_toml_example =
    get-from_toml toml "roles" "ranks.toml" table refl ranks ranks_loaded "viewer"

table-≤ : All (λ e. e.1 ≤ℤ platform_admin_rank) table
table-≤ = (ground arith, (ground arith, tt))

max_rank-eq-top_iff_example :
    (max_rank ranks ("viewer" ∷ "manager" ∷ []) ≡ platform_admin_rank)
    ↔ (any (λ r. r == platform_admin_role) ("viewer" ∷ "manager" ∷ []) ≡ true)
max_rank-eq-top_iff_example =
    max_rank-eq-top_iff toml "roles" "ranks.toml" table refl table-≤ ranks ranks_loaded
      ("viewer" ∷ "manager" ∷ [])

ensure_all_registered_iff_example :
    ((ensure_all_registered ranks ("viewer" ∷ "guest" ∷ []) ≡ ok tt)
      ↔ All (λ r. is_some (get r ranks) ≡ true) ("viewer" ∷ "guest" ∷ []))
    × ((before after : List String) (role : String)
        → ("viewer" ∷ "guest" ∷ []) ≡ before ++ role ∷ after
        → All (λ r. is_some (get r ranks) ≡ true) before
        → get role ranks ≡ none
        → ensure_all_registered ranks ("viewer" ∷ "guest" ∷ []) ≡ err (unregistered_role role))
ensure_all_registered_iff_example = ensure_all_registered_iff ranks ("viewer" ∷ "guest" ∷ [])

abbrev plain : Externals
plain = record { F64 = ℕ; DateTime = ℕ; Json = ℕ }

-- Claims are the roles of the caller; who has any may update, and see no annotated field.
abbrev engine : Engine plain
engine = record {
  Store = ℕ;
  Claims = List String;
  has_role = λ c role. any (λ r. r == role) c;
  tenant_chain = λ c. some (record { schema = "Organization"; entity_id = "org_1" } ∷ []);
  authorize = λ store c verb schema e. elim verb [ ActionVerb.update ↦ ok true | _ ↦ ok false ];
  authorize_field = λ store c schema e name direction. ok false;
}

abbrev viewer : Option engine.Claims
viewer = some ("viewer" ∷ [])

abbrev invoice_field : FieldDefinition
invoice_field = record (field_new "secret" FieldType.boolean) {
  annotations = field_access ("admin" ∷ []) ("admin" ∷ []) ∷ [];
}

abbrev invoice : SchemaDefinition
invoice = record { id = "s1"; name = "Invoice"; fields = invoice_field ∷ []; annotations = [] }

abbrev row : FieldMap plain
row = ("amount", DynamicValue.integer (pos 5)) ∷ ("secret", DynamicValue.boolean true) ∷ []

abbrev bill : Entity plain
bill = record { id = "invoice_1"; schema = "Invoice"; fields = row }

get_field-filter_entity_fields_example :
    (Shown engine 0 invoice bill ("viewer" ∷ []) FieldDirection.read "secret"
      → get_field "secret"
          (filter_entity_fields engine 0 invoice bill viewer FieldDirection.read).fields
        ≡ get_field "secret" row)
    × (Withheld engine 0 invoice bill ("viewer" ∷ []) FieldDirection.read "secret"
        → get_field "secret"
            (filter_entity_fields engine 0 invoice bill viewer FieldDirection.read).fields
          ≡ none)
    × (filter_entity_fields engine 0 invoice bill none FieldDirection.read ≡ bill)
get_field-filter_entity_fields_example =
    get_field-filter_entity_fields engine 0 invoice bill ("viewer" ∷ []) FieldDirection.read
      "secret"

-- The secret is withheld, the amount, which the schema lacks, is shown.
secret-Withheld : Withheld engine 0 invoice bill ("viewer" ∷ []) FieldDirection.read "secret"
unfolding field
secret-Withheld = ((invoice_field, [], [], "admin" ∷ [], "admin" ∷ [], refl, refl), λ e. cc e)

amount-Shown : Shown engine 0 invoice bill ("viewer" ∷ []) FieldDirection.read "amount"
unfolding field
amount-Shown = inl refl

-- A database that knows conjunction and equality with a text, and finds no row by another filter.
abbrev is_text : String → Option (DynamicValue plain) → Bool
is_text s (some (DynamicValue.text t)) = t == s
is_text s _ = false

abbrev holds_eq : FieldMap plain → String → DynamicValue plain → Bool
holds_eq r name (DynamicValue.text s) = is_text s (get_field name r)
holds_eq r name _ = false

unfoldable mutual
  holds : FieldMap plain → Filter plain → Bool
  holds r (eq path v) = holds_eq r path.first v
  holds r (and fs) = holds_all r fs
  holds r _ = false

  holds_all : FieldMap plain → Filters plain → Bool
  holds_all r no_filters = true
  holds_all r (filter f fs) = holds r f && holds_all r fs

is_text_iff :
    (s : String) (o : Option (DynamicValue plain))
    → (is_text s o ≡ true) ↔ (o ≡ some (DynamicValue.text s))
is_text_iff s none = (λ h. cc, λ h. cc)
is_text_iff s (some (DynamicValue.text t)) =
    (λ h. cc ((eq_iff t s).0 h), λ h. (eq_iff t s).1 (ground arith))
is_text_iff s (some _) = (λ h. cc h, λ h. cc h)

meaning : Meaning plain
unfolding holds
meaning = record {
  holds = holds;
  holds-and = λ r f g. conj (holds r f) (holds r g);
  holds-eq = λ r name s. is_text_iff s (get_field name r);
}
  where
    conj : (a b : Bool) → (a && (b && true)) ≡ (a && b)
    conj a b = ground arith

abbrev tenancy : Option TenantConfig
tenancy = some (record { root_schema = some "Organization"; hierarchy = [] })

abbrev all_invoices : Query plain
all_invoices = query_new "s1"

matches-inject_tenant_scope_iff_example :
    (matches meaning row (inject_tenant_scope engine all_invoices viewer tenancy) ≡ true)
    ↔ ((matches meaning row all_invoices ≡ true) × IsVisible engine row viewer tenancy)
matches-inject_tenant_scope_iff_example =
    matches-inject_tenant_scope_iff engine meaning row all_invoices viewer tenancy

created-matches-inject_tenant_scope_example :
    matches meaning
      (inject_tenant_on_create engine row viewer tenancy)
      (inject_tenant_scope engine all_invoices viewer tenancy)
    ≡ matches meaning (inject_tenant_on_create engine row viewer tenancy) all_invoices
created-matches-inject_tenant_scope_example =
    created-matches-inject_tenant_scope engine meaning row all_invoices viewer tenancy

get_field-strip_hidden_example :
    ((f : FieldDefinition) (before after : List FieldAnnotation)
      → field invoice "amount" ≡ some f
      → f.annotations ≡ before ++ FieldAnnotation.hidden ∷ after
      → get_field "amount" (strip_hidden invoice bill).fields ≡ none)
    × ((f : FieldDefinition)
        → field invoice "amount" ≡ some f
        → All IsShowing f.annotations
        → get_field "amount" (strip_hidden invoice bill).fields ≡ get_field "amount" bill.fields)
    × (field invoice "amount" ≡ none
        → get_field "amount" (strip_hidden invoice bill).fields ≡ get_field "amount" bill.fields)
get_field-strip_hidden_example = get_field-strip_hidden invoice bill "amount"
