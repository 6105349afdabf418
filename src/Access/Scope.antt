-- ===== src/Access/Scope.antt =====
-- crates/schema-forge-acton/src/access.rs: the tenant of a query and of a new entity.
pub mod Isolation
use schemaforge.Prelude.{
  String, Bool, true, false, not, Option, none, some, List, [], ◌∷◌, ◌==◌, ◌&&◌, ◌≡◌, refl, arith,
  ap, ◌∙◌, eq_iff, if◌then◌else◌, Bool-cases, Option-cases, inl, inr, sym,
}
use schemaforge.Core.Value.{Externals, DynamicValue}
use schemaforge.Query.Path.{FieldPath, single}
use schemaforge.Query.Filter.{Filter, Filters, eq, and, no_filters, filter}
use schemaforge.Query.Request.{Query}
use schemaforge.Access.Engine.{Engine, FieldMap, get_field, insert_field}
use schemaforge.Tenant.Config.{TenantRef, TenantConfig, is_enabled}
use schemaforge.Access.Ranks.{platform_admin_role}

-- `slice::last`
unfoldable pub last {ℓ} : {A : Type ℓ} → List A → Option A
last [] = none
last (x ∷ []) = some x
last (x ∷ y ∷ ys) = last (y ∷ ys)

abbrev pub or_default : Option (List TenantRef) → List TenantRef
or_default none = []
or_default (some chain) = chain

-- `Some(c) if c.is_enabled()`
abbrev pub tenancy_on : Option TenantConfig → Bool
tenancy_on none = false
tenancy_on (some c) = is_enabled c

module _ {X : Externals} where
  abbrev pub tenant_filter : TenantRef → Filter X
  tenant_filter t = eq (single "_tenant") (DynamicValue.text t.entity_id)

  -- `Filter::and(vec![existing, tenant_filter])`, or the tenant's filter alone.
  abbrev pub conjoin : Option (Filter X) → Filter X → Filter X
  conjoin (some existing) f = and (filter existing (filter f no_filters))
  conjoin none f = f

  abbrev pub scope_to : Query X → Option TenantRef → Query X
  scope_to q none = q
  scope_to q (some t) = record q { filter = some (conjoin q.filter (tenant_filter t)) }

  abbrev pub stamp : FieldMap X → Option TenantRef → FieldMap X
  stamp fields none = fields
  stamp fields (some t) = insert_field "_tenant" (DynamicValue.text t.entity_id) fields

  module _ (G : Engine X) where
    unfoldable pub inject_tenant_scope : Query X → Option G.Claims → Option TenantConfig → Query X
    unfolding last
    inject_tenant_scope q none config = q
    inject_tenant_scope q (some c) config =
        if tenancy_on config
        then if G.has_role c platform_admin_role
          then q
          else scope_to q (last (or_default (G.tenant_chain c)))
        else q

    unfoldable pub inject_tenant_on_create :
        FieldMap X → Option G.Claims → Option TenantConfig → FieldMap X
    unfolding last insert_field
    inject_tenant_on_create fields none config = fields
    inject_tenant_on_create fields (some c) config =
        if tenancy_on config then stamp fields (last (or_default (G.tenant_chain c))) else fields
