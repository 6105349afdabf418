-- ===== src/Core/Inverse.antt =====
-- crates/schema-forge-core/src/inverse_relations.rs: collection relations paired with the foreign
-- keys that point back. The `HashMap` of foreign keys is an association list; `none` is a panic.
pub mod Direct
pub mod Edits
pub mod Agrees
pub mod Idempotent
use mathlib.Core.Option
use schemaforge.Prelude.{
  map, ◌++◌, ◌==◌, keep, ◌>>=◌, err, none, if◌then◌else◌, suc, zero, ok, [], List, Option, ℕ,
  Result, some, ◌∷◌, String,
}
use schemaforge.Core.Names.{SchemaName, FieldName, field_name_new}
use schemaforge.Core.Constraints.{Cardinality}
use schemaforge.Core.FieldType.{FieldType}
use schemaforge.Core.Schema.{FieldDefinition, SchemaDefinition}

pub data InverseRelationError : Type 0 where
  ambiguous : String → String → String → List String → InverseRelationError

-- The index of the owning schema, its name, and the name of the foreign key.
pub record ForeignKey : Type 0 where
  pub schema_idx : ℕ
  pub owner_name : String
  pub fk_field : String

abbrev pub Index : Type 0
Index = List (String × List ForeignKey)

-- `entry(target).or_default().push(fk)`
unfoldable pub push_fk : String → ForeignKey → Index → Index
push_fk target fk [] = (target, fk ∷ []) ∷ []
push_fk target fk ((t, fks) ∷ rest) =
    let others = push_fk target fk rest in
    if t == target then (t, fks ++ fk ∷ []) ∷ rest else (t, fks) ∷ others

unfoldable pub get_fks : String → Index → Option (List ForeignKey)
get_fks target [] = none
get_fks target ((t, fks) ∷ rest) = if t == target then some fks else get_fks target rest

-- The target of `Relation { target, cardinality: One }`.
abbrev pub one_target : FieldType → Option SchemaName
one_target (FieldType.relation target Cardinality.one) = some target
one_target _ = none

-- The target of `Relation { target, cardinality: Many }`.
abbrev pub many_target : FieldType → Option SchemaName
many_target (FieldType.relation target Cardinality.many) = some target
many_target _ = none

abbrev pub push_one : Option SchemaName → ForeignKey → Index → Index
push_one none fk index = index
push_one (some target) fk index = push_fk target fk index

unfoldable pub index_fields : ℕ → String → List FieldDefinition → Index → Index
index_fields schema_idx owner [] index = index
index_fields schema_idx owner (f ∷ fs) index = index_fields schema_idx owner fs (
    push_one (one_target f.field_type)
      (record { schema_idx = schema_idx; owner_name = owner; fk_field = f.name }) index)

unfoldable pub index_schemas : ℕ → List SchemaDefinition → Index → Index
index_schemas schema_idx [] index = index
index_schemas schema_idx (s ∷ ss) index =
    index_schemas (suc schema_idx) ss (index_fields schema_idx s.name s.fields index)

pub record Pairing : Type 0 where
  pub parent_idx : ℕ
  pub field_idx : ℕ
  pub fk_field_name : String

-- `match matches.as_slice()`
abbrev pub match_fks :
    ℕ → ℕ → String → String → String → List ForeignKey → Result (List Pairing) InverseRelationError
match_fks parent_idx field_idx parent field_name target [] = ok []
match_fks parent_idx field_idx parent field_name target (fk ∷ []) =
    ok (record { parent_idx = parent_idx; field_idx = field_idx; fk_field_name = fk.fk_field } ∷ [])
match_fks parent_idx field_idx parent field_name target many =
    err (ambiguous parent field_name target (map (λ fk. fk.fk_field) many))

abbrev pub pair_matching :
    ℕ
    → ℕ
    → String
    → String
    → String
    → Option (List ForeignKey)
    → Result (List Pairing) InverseRelationError
pair_matching parent_idx field_idx parent field_name target none = ok []
pair_matching parent_idx field_idx parent field_name target (some all_fks) =
    match_fks parent_idx field_idx parent field_name target
      (keep (λ fk. fk.owner_name == target) all_fks)

abbrev pub pair_target :
    Index → ℕ → ℕ → String → String → Option SchemaName → Result (List Pairing) InverseRelationError
pair_target index parent_idx field_idx parent field_name none = ok []
pair_target index parent_idx field_idx parent field_name (some target) =
    pair_matching parent_idx field_idx parent field_name target (get_fks parent index)

unfoldable pub pair_fields :
    Index → ℕ → String → ℕ → List FieldDefinition → Result (List Pairing) InverseRelationError
pair_fields index parent_idx parent field_idx [] = ok []
pair_fields index parent_idx parent field_idx (f ∷ fs) =
    pair_target index parent_idx field_idx parent f.name (many_target f.field_type) >>= λ ps.
    pair_fields index parent_idx parent (suc field_idx) fs >>= λ qs. ok (ps ++ qs)

unfoldable pub pair_schemas :
    Index → ℕ → List SchemaDefinition → Result (List Pairing) InverseRelationError
pair_schemas index parent_idx [] = ok []
pair_schemas index parent_idx (s ∷ ss) = pair_fields index parent_idx s.name 0 s.fields >>= λ ps.
    pair_schemas index (suc parent_idx) ss >>= λ qs. ok (ps ++ qs)

-- `xs[i] = f(xs[i])`, a panic out of range.
unfoldable pub update_at : {A : Type 0} → ℕ → (A → Option A) → List A → Option (List A)
update_at i f [] = none
update_at zero f (x ∷ xs) = Option.map (λ y. y ∷ xs) (f x)
update_at (suc i) f (x ∷ xs) = Option.map (λ ys. x ∷ ys) (update_at i f xs)

abbrev pub derive_from : FieldName → FieldDefinition → FieldDefinition
derive_from fk f = record f { derived_from = some fk }

abbrev pub with_fields : SchemaDefinition → List FieldDefinition → SchemaDefinition
with_fields s fields = record s { fields = fields }

abbrev pub expect_ok {ℓ} : {A E : Type ℓ} → Result A E → Option A
expect_ok (ok a) = some a
expect_ok (err e) = none

abbrev pub bind_opt {ℓ} : {A B : Type ℓ} → Option A → (A → Option B) → Option B
bind_opt none f = none
bind_opt (some a) f = f a

unfoldable pub apply_pairing : Pairing → List SchemaDefinition → Option (List SchemaDefinition)
apply_pairing p schemas = bind_opt (expect_ok (field_name_new p.fk_field_name)) (λ fk.
    update_at p.parent_idx
      (λ s.
        Option.map (with_fields s) (update_at p.field_idx (λ f. some (derive_from fk f)) s.fields))
      schemas)

unfoldable pub apply_pairings :
    List Pairing → List SchemaDefinition → Option (List SchemaDefinition)
apply_pairings [] schemas = some schemas
apply_pairings (p ∷ ps) schemas = bind_opt (apply_pairing p schemas) (apply_pairings ps)

abbrev pub apply_result :
    List SchemaDefinition
    → Result (List Pairing) InverseRelationError
    → Option (Result (List SchemaDefinition) InverseRelationError)
apply_result schemas (ok ps) = Option.map ok (apply_pairings ps schemas)
apply_result schemas (err e) = some (err e)

unfoldable pub pair_inverse_relations :
    List SchemaDefinition → Option (Result (List SchemaDefinition) InverseRelationError)
pair_inverse_relations schemas =
    apply_result schemas (pair_schemas (index_schemas 0 schemas []) 0 schemas)
