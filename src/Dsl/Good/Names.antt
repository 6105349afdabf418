-- ===== src/Dsl/Good/Names.antt =====
-- The checked constructors that parser.rs calls give good values.
use mathlib.Core.Path.{subst}
use schemaforge.Prelude.{String, List, ◌≡◌, sym, ok}
use schemaforge.Core.Names.{field_name_new, schema_name_new}
use schemaforge.Core.Names.Valid.{field_name_new_iff, schema_name_new_iff}
use schemaforge.Core.Constraints.{enum_variants_new}
use schemaforge.Core.Constraints.Variants.{GoodVariants, enum_variants_new_iff}
use schemaforge.Dsl.Good.{GoodFieldName, GoodSchemaName}

pub field_name_new-GoodFieldName : (s n : String) → field_name_new s ≡ ok n → GoodFieldName n
field_name_new-GoodFieldName s n h =
    let split = (field_name_new_iff s n).0 h in subst GoodFieldName (sym split.0) (split.1, split.2)

pub schema_name_new-GoodSchemaName : (s n : String) → schema_name_new s ≡ ok n → GoodSchemaName n
schema_name_new-GoodSchemaName s n h =
    let split = (schema_name_new_iff s n).0 h in
    subst GoodSchemaName (sym split.0) (split.1, split.2)

pub enum_variants_new-GoodVariants :
    (vs ws : List String) → enum_variants_new vs ≡ ok ws → GoodVariants ws
enum_variants_new-GoodVariants vs ws h =
    let (e, good) = (enum_variants_new_iff vs ws).0 h in subst GoodVariants (sym e) good
