-- ===== src/Access/Engine.antt =====
-- What crates/schema-forge-acton/src/access.rs calls: the claims of the web framework, the policy
-- engine behind `authorize` and `authorize_field`, and the entities of
-- crates/schema-forge-backend/src/entity.rs.
use schemaforge.Prelude.{
  String, Bool, Option, some, none, List, [], ◌∷◌, ◌==◌, Result, if◌then◌else◌,
}
use schemaforge.Core.Names.{SchemaName}
use schemaforge.Tenant.Config.{TenantRef}
use schemaforge.Core.Schema.{SchemaDefinition}
use schemaforge.Core.Value.{Externals, EntityId, DynamicValue}

-- A `BTreeMap<String, DynamicValue>` as an association list, without its order.
abbrev pub FieldMap : Externals → Type 0
FieldMap X = List (String × DynamicValue X)

unfoldable pub insert_field : {X : Externals} → String → DynamicValue X → FieldMap X → FieldMap X
insert_field name v [] = (name, v) ∷ []
insert_field name v ((n, w) ∷ fields) =
    let rest = insert_field name v fields in if n == name then (name, v) ∷ fields else (n, w) ∷ rest

unfoldable pub get_field : {X : Externals} → String → FieldMap X → Option (DynamicValue X)
get_field name [] = none
get_field name ((n, v) ∷ fields) = if n == name then some v else get_field name fields

pub record Entity (X : Externals) : Type 0 where
  pub id : EntityId
  pub schema : SchemaName
  pub fields : FieldMap X

pub data ActionVerb : Type 0 where
  read list create update delete : ActionVerb

pub data FieldDirection : Type 0 where
  read write : FieldDirection

-- `tenant_chain` is the custom claim of that name, if it is there and has its form; a decision is its
-- `is_allow`, and an error of the engine its text.
pub record Engine (X : Externals) : Type 1 where
  pub Store : Type 0
  pub Claims : Type 0
  pub has_role : Claims → String → Bool
  pub tenant_chain : Claims → Option (List TenantRef)
  pub authorize :
      Store → Option Claims → ActionVerb → SchemaDefinition → Option (Entity X) → Result Bool String
  pub authorize_field :
      Store
      → Option Claims
      → SchemaDefinition
      → Entity X
      → String
      → FieldDirection
      → Result Bool String
