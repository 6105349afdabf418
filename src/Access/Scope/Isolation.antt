-- ===== src/Access/Scope/Isolation.antt =====
-- Tenant isolation as access.rs makes it: what a scoped query finds, also of what the caller
-- has created.
use mathlib.Core.Path.{subst}
use schemaforge.Prelude.{
  String, Bool, true, false, ◌&&◌, Option, none, some, [], ◌∷◌, ◌==◌, ◌≡◌, ◌↔◌, refl, arith, ◌∙◌,
  eq_iff, if◌then◌else◌, Bool-cases, inl, inr, sym,
}
use schemaforge.Core.Value.{Externals, DynamicValue}
use schemaforge.Query.Path.{single}
use schemaforge.Query.Filter.{Filter, eq, and, no_filters, filter}
use schemaforge.Query.Request.{Query}
use schemaforge.Access.Engine.{Engine, FieldMap, get_field, insert_field}
use schemaforge.Tenant.Config.{TenantRef, TenantConfig}
use schemaforge.Access.Ranks.{platform_admin_role}
use schemaforge.Access.Scope.{
  last, or_default, tenancy_on, tenant_filter, conjoin, scope_to, inject_tenant_scope,
  inject_tenant_on_create,
}

-- What a database makes of a filter on a row, with the laws of the two forms that scoping uses.
pub record Meaning (X : Externals) : Type 0 where
  pub holds : FieldMap X → Filter X → Bool
  pub holds-and :
      (row : FieldMap X) (f g : Filter X)
      → holds row (and (filter f (filter g no_filters))) ≡ (holds row f && holds row g)
  pub holds-eq :
      (row : FieldMap X) (name s : String)
      → (holds row (eq (single name) (DynamicValue.text s)) ≡ true)
        ↔ (get_field name row ≡ some (DynamicValue.text s))

module _ {X : Externals} (M : Meaning X) where
  abbrev pub filter_holds : FieldMap X → Option (Filter X) → Bool
  filter_holds row none = true
  filter_holds row (some f) = M.holds row f

  -- The query finds the row.
  abbrev pub matches : FieldMap X → Query X → Bool
  matches row q = filter_holds row q.filter

module _ {X : Externals} (G : Engine X) where
  -- Tenancy is on, and the caller is no platform administrator and has `t` at the end of its chain.
  abbrev pub Confined : Option G.Claims → Option TenantConfig → TenantRef → Type 0
  Confined claims config t =
      (c : G.Claims) × (claims ≡ some c)
      × (tenancy_on config ≡ true)
      × (G.has_role c platform_admin_role ≡ false)
      × (last (or_default (G.tenant_chain c)) ≡ some t)

  -- A row of the tenant that the caller is confined to, if it is.
  abbrev pub IsVisible : FieldMap X → Option G.Claims → Option TenantConfig → Type 0
  IsVisible row claims config =
      (t : TenantRef)
      → Confined claims config t
      → get_field "_tenant" row ≡ some (DynamicValue.text t.entity_id)

get_field-insert_field :
    {X : Externals} (n m : String) (v : DynamicValue X) (fields : FieldMap X)
    → get_field n (insert_field m v fields) ≡ (if m == n then some v else get_field n fields)
unfolding get_field insert_field
get_field-insert_field n m v [] = refl
get_field-insert_field n m v ((k, w) ∷ fields) =
    ground (arith, get_field-insert_field n m v fields, eq_iff k m, eq_iff k n, eq_iff m n)

module _ {X : Externals} (M : Meaning X) where
  filter_holds-conjoin :
      (row : FieldMap X) (o : Option (Filter X)) (f : Filter X)
      → M.holds row (conjoin o f) ≡ (filter_holds M row o && M.holds row f)
  filter_holds-conjoin row none f = refl
  filter_holds-conjoin row (some g) f = M.holds-and row g f

and-true_iff : (a b : Bool) → ((a && b) ≡ true) ↔ ((a ≡ true) × (b ≡ true))
and-true_iff a b = ground arith

value : {A : Type 0} {a b : A} → some a ≡ some b → a ≡ b
value e = ground arith

abbrev Belongs : {X : Externals} → FieldMap X → TenantRef → Type 0
Belongs row t = get_field "_tenant" row ≡ some (DynamicValue.text t.entity_id)

both_true : {a b : Bool} {P : Type 0} → (a ≡ true) ↔ ((b ≡ true) × P) → P → a ≡ b
both_true {a = true} h p = sym (h.0 refl).0
both_true {a = false} {b = true} h p = h.1 (refl, p)
both_true {a = false} {b = false} h p = refl

module _ {X : Externals} (G : Engine X) where
  created-IsVisible :
      (fields : FieldMap X) (claims : Option G.Claims) (config : Option TenantConfig)
      → IsVisible G (inject_tenant_on_create G fields claims config) claims config
  unfolding inject_tenant_on_create
  created-IsVisible fields none config t (c, e, a, b, d) = cc e
  created-IsVisible fields (some c) config t (d, e, on, u, l) =
      let l' : last (or_default (G.tenant_chain c)) ≡ some t =
        subst (λ k. last (or_default (G.tenant_chain k)) ≡ some t) (sym (value e)) l in
      rw (on, l', get_field-insert_field "_tenant" "_tenant" (DynamicValue.text t.entity_id) fields)
        refl

module _ {X : Externals} (G : Engine X) (M : Meaning X) where
  matches-scope_to :
      (row : FieldMap X) (q : Query X) (o : Option TenantRef)
      → (matches M row (scope_to q o) ≡ true) ↔ (
          (matches M row q ≡ true)
          × ((t : TenantRef)
              → o ≡ some t
              → get_field "_tenant" row ≡ some (DynamicValue.text t.entity_id)))
  matches-scope_to row q none = (λ h. (h, λ t e. cc e), λ (a, b). a)
  matches-scope_to row q (some t) =
      let parts = and-true_iff (filter_holds M row q.filter) (M.holds row (tenant_filter t)) in
      let both = filter_holds-conjoin M row q.filter (tenant_filter t) in
      let tenant = M.holds-eq row "_tenant" t.entity_id in
      (
        λ h.
            let (a, b) = parts.0 (sym both ∙ h) in
            (a, λ u e. subst (Belongs row) (value e) (tenant.0 b)),
        λ (a, b). both ∙ parts.1 (a, tenant.1 (b t refl)),
      )

  -- On any database that takes conjunctions and comparisons for equality with a text as they are meant,
  -- the query that scoping makes of `q` finds exactly the rows that `q` finds and that belong to the tenant
  -- at the end of the caller's chain, where tenancy is on and the caller has claims, a chain that is not
  -- empty, and not the role of the platform administrator; in every other case all that `q` finds.
  pub matches-inject_tenant_scope_iff :
      (row : FieldMap X) (q : Query X) (claims : Option G.Claims) (config : Option TenantConfig)
      → (matches M row (inject_tenant_scope G q claims config) ≡ true)
        ↔ ((matches M row q ≡ true) × IsVisible G row claims config)
  unfolding inject_tenant_scope
  matches-inject_tenant_scope_iff row q none config =
      (λ h. (h, λ t (c, e, a, b, d). cc e), λ (a, b). a)
  matches-inject_tenant_scope_iff row q (some c) config = elim (Bool-cases (tenancy_on config)) [
    | inr off ↦ rw off (λ h. (h, λ t (d, e, on, a, b). cc on), λ (a, b). a)
    | inl on ↦ elim (Bool-cases (G.has_role c platform_admin_role)) [
      | inl admin ↦ rw (on, admin) (λ h. (h, λ t (d, e, o, a, b). cc (admin, e, a)), λ (a, b). a)
      | inr user ↦
          rw (on, user)
            (let parts = matches-scope_to row q (last (or_default (G.tenant_chain c))) in
              (
                λ h.
                    let (a, b) = parts.0 h in
                    (
                      a,
                      λ t (d, e, o, u, l). b t (
                          subst (λ k. last (or_default (G.tenant_chain k)) ≡ some t) (sym (value e))
                            l),
                    ),
                λ (a, vis). parts.1 (a, λ t l. vis t (c, refl, refl, user, l)),
              ))
    ]
  ]

  -- On such a database, a row that is created from `fields` by a caller is found by the same caller's
  -- scoped query exactly if the unscoped query finds it: scoping never hides from a caller what it created.
  pub created-matches-inject_tenant_scope :
      (fields : FieldMap X) (q : Query X) (claims : Option G.Claims) (config : Option TenantConfig)
      → matches M
          (inject_tenant_on_create G fields claims config)
          (inject_tenant_scope G q claims config)
        ≡ matches M (inject_tenant_on_create G fields claims config) q
  created-matches-inject_tenant_scope fields q claims config =
      both_true
        (matches-inject_tenant_scope_iff (inject_tenant_on_create G fields claims config) q claims
          config)
        (created-IsVisible G fields claims config)
