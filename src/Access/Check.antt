-- ===== src/Access/Check.antt =====
-- crates/schema-forge-acton/src/access.rs: the checks of a whole operation. Of the variants of
-- `ForgeError`, those that these make; each keeps what its message is made of.
use schemaforge.Prelude.{
  String, Bool, true, false, Option, none, some, List, [], ◌∷◌, Result, ok, err, ◌≡◌, ◌⊎◌, is_some,
  if◌then◌else◌,
}
use schemaforge.Core.Schema.{SchemaDefinition}
use schemaforge.Core.Value.{Externals}
use schemaforge.Access.Engine.{Engine, Entity, ActionVerb}

pub data AccessAction : Type 0 where
  read list create update write delete : AccessAction

pub data ForgeError : Type 0 where
  unauthorized : ForgeError
  internal : String → ForgeError
  forbidden : AccessAction → String → ForgeError

unfoldable pub primary_verb : AccessAction → ActionVerb
primary_verb AccessAction.read = ActionVerb.read
primary_verb AccessAction.list = ActionVerb.list
primary_verb AccessAction.create = ActionVerb.create
primary_verb AccessAction.write = ActionVerb.create
primary_verb AccessAction.update = ActionVerb.update
primary_verb AccessAction.delete = ActionVerb.delete

unfoldable pub additional_verbs : AccessAction → List ActionVerb
additional_verbs AccessAction.write = ActionVerb.update ∷ []
additional_verbs _ = []

pub record SchemaPermissions : Type 0 where
  pub create : Bool

pub record EntityPermissions : Type 0 where
  pub update : Bool
  pub delete : Bool

-- `map(|d| d.is_allow()).unwrap_or(false)`
abbrev pub allows : Result Bool String → Bool
allows (ok b) = b
allows (err e) = false

module _ {X : Externals} (G : Engine X) (store : G.Store) (schema : SchemaDefinition)
    (claims : Option G.Claims) where
  -- The decision of the engine about a verb, or what follows a denial.
  abbrev pub decide :
      Result Bool String → Result (Unit {0}) ForgeError → Result (Unit {0}) ForgeError
  decide (err e) denied = err (internal e)
  decide (ok true) denied = ok tt
  decide (ok false) denied = denied

  unfoldable pub try_verbs : AccessAction → List ActionVerb → Result (Unit {0}) ForgeError
  try_verbs action [] = err (forbidden action schema.name)
  try_verbs action (verb ∷ verbs) =
      decide (G.authorize store claims verb schema none) (try_verbs action verbs)

  unfoldable pub check_schema_access : AccessAction → Result (Unit {0}) ForgeError
  check_schema_access action =
      if is_some claims
      then decide (G.authorize store claims (primary_verb action) schema none)
          (try_verbs action (additional_verbs action))
      else err unauthorized

  unfoldable pub schema_permissions : SchemaPermissions
  schema_permissions = record {
    create = allows (G.authorize store claims ActionVerb.create schema none);
  }

  unfoldable pub entity_permissions : Entity X → EntityPermissions
  entity_permissions entity = record {
    update = allows (G.authorize store claims ActionVerb.update schema (some entity));
    delete = allows (G.authorize store claims ActionVerb.delete schema (some entity));
  }

module _ {X : Externals} (G : Engine X) (store : G.Store) (schema : SchemaDefinition) where
  -- The engine allows the first verb of the action, or denies it without an error and allows the second
  -- verb of a write.
  abbrev pub Allowed : Option G.Claims → AccessAction → Type 0
  Allowed claims action =
      (G.authorize store claims (primary_verb action) schema none ≡ ok true)
      ⊎ ((G.authorize store claims (primary_verb action) schema none ≡ ok false)
          × (action ≡ AccessAction.write)
          × (G.authorize store claims ActionVerb.update schema none ≡ ok true))
