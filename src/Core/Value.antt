-- ===== src/Core/Value.antt =====
-- crates/schema-forge-core/src/types: dynamic_value.rs and entity_id.rs.
use schemaforge.Prelude.{String, Bool, List}
use schemaforge.Prelude.Int.{ℤ}

-- The types that other packages declare: f64, `chrono::DateTime<Utc>` and `serde_json::Value`.
pub record Externals : Type 1 where
  pub F64 : Type 0
  pub DateTime : Type 0
  pub Json : Type 0

-- An `EntityId` is its text form.
abbrev pub EntityId : Type 0
EntityId = String

-- `Values` is a `Vec<DynamicValue>`; `Entries` is a `BTreeMap<String, DynamicValue>`, in key order.
mutual
  pub data DynamicValue (X : Externals) : Type 0 where
    null : DynamicValue X
    text : String → DynamicValue X
    integer : ℤ → DynamicValue X
    float : X.F64 → DynamicValue X
    boolean : Bool → DynamicValue X
    date_time : X.DateTime → DynamicValue X
    enum : String → DynamicValue X
    json : X.Json → DynamicValue X
    array : Values X → DynamicValue X
    composite : Entries X → DynamicValue X
    ref : EntityId → DynamicValue X
    ref_array : List EntityId → DynamicValue X

  pub data Values (X : Externals) : Type 0 where
    no_values : Values X
    value : DynamicValue X → Values X → Values X

  pub data Entries (X : Externals) : Type 0 where
    no_entries : Entries X
    entry : String → DynamicValue X → Entries X → Entries X
