-- ===== src/Core/Examples.antt =====
-- Schemas, names and tokens, and the theorems of the core types at them.
use schemaforge.Prelude.{String, some, List, [], ◌∷◌, ◌≡◌, ◌≢◌, ◌↔◌, refl, All, ok, err}
use schemaforge.Core.Error.{reserved_field_name}
use schemaforge.Core.Names.{
  find_reserved_field_name, is_snake_case, field_name_new, schema_name_new, reserved_field_names,
  reserved_schema_names,
}
use schemaforge.Core.Names.Valid.{SnakeCase, PascalCase, field_name_new_iff, schema_name_new_iff}
use schemaforge.Core.Tokens.Display.{WidgetType, widget_from_str, widget_as_str}
use schemaforge.Core.Tokens.Lifecycle.{HookEvent, hook_from_str, hook_as_str}
use schemaforge.Core.Tokens.RoundTrip.{widget_from_str_iff, hook_from_str_iff}
use schemaforge.Core.Constraints.{Cardinality}
use schemaforge.Core.FieldType.{FieldType}
use schemaforge.Core.Annotation.{system}
use schemaforge.Core.Schema.{SchemaDefinition, field_new}
use schemaforge.Core.Inverse.{
  pair_inverse_relations, pair_schemas, pair_fields, get_fks, index_schemas, index_fields, push_fk,
  apply_pairings, apply_pairing, update_at, derive_from,
}
use schemaforge.Core.Inverse.Direct.{direct}
use schemaforge.Core.Inverse.Agrees.{NamesAreValid, pair_inverse_relations-eq}
use schemaforge.Core.Inverse.Idempotent.{pair_inverse_relations-idempotent}

permit_is_reserved : field_name_new "permit" ≡ err (reserved_field_name "permit")
unfolding field_name_new is_snake_case find_reserved_field_name
permit_is_reserved = refl

field_name_new_iff_example : (field_name_new "unit_price2" ≡ ok "unit_price2") ↔ (
    (◌≡◌ {A = String} "unit_price2" "unit_price2")
    × SnakeCase "unit_price2"
    × All (λ r. r ≢ "unit_price2") reserved_field_names)
field_name_new_iff_example = field_name_new_iff "unit_price2" "unit_price2"

schema_name_new_iff_example : (schema_name_new "LineItem" ≡ ok "LineItem") ↔ (
    (◌≡◌ {A = String} "LineItem" "LineItem")
    × PascalCase "LineItem"
    × All (λ r. r ≢ "LineItem") reserved_schema_names)
schema_name_new_iff_example = schema_name_new_iff "LineItem" "LineItem"

widget_from_str_iff_example :
    (widget_from_str "progress" ≡ some WidgetType.progress)
    ↔ ("progress" ≡ widget_as_str WidgetType.progress)
widget_from_str_iff_example = widget_from_str_iff "progress" WidgetType.progress

hook_from_str_iff_example :
    (hook_from_str "after_read" ≡ some HookEvent.after_read)
    ↔ ("after_read" ≡ hook_as_str HookEvent.after_read)
hook_from_str_iff_example = hook_from_str_iff "after_read" HookEvent.after_read

-- A company has contacts, and a contact belongs to a company.
abbrev company : SchemaDefinition
company = record {
  id = "s1";
  name = "Company";
  fields =
      field_new "active" FieldType.boolean
      ∷ field_new "contacts" (FieldType.relation "Contact" Cardinality.many)
      ∷ [];
  annotations = system ∷ [];
}

abbrev contact : SchemaDefinition
contact = record {
  id = "s2";
  name = "Contact";
  fields = field_new "company" (FieldType.relation "Company" Cardinality.one) ∷ [];
  annotations = [];
}

abbrev paired_company : SchemaDefinition
paired_company = record company {
  fields =
      field_new "active" FieldType.boolean
      ∷ derive_from "company" (field_new "contacts" (FieldType.relation "Contact" Cardinality.many))
      ∷ [];
}

abbrev batch : List SchemaDefinition
batch = company ∷ contact ∷ []

batch-NamesAreValid : NamesAreValid batch
unfolding field_name_new is_snake_case find_reserved_field_name
batch-NamesAreValid = ((refl, (refl, tt)), ((refl, tt), tt))

pair_batch : pair_inverse_relations batch ≡ some (ok (paired_company ∷ contact ∷ []))
unfolding pair_inverse_relations pair_schemas pair_fields get_fks index_schemas index_fields push_fk
    apply_pairings apply_pairing field_name_new is_snake_case find_reserved_field_name update_at
pair_batch = refl

pair_inverse_relations-eq_example : pair_inverse_relations batch ≡ some (direct batch)
pair_inverse_relations-eq_example = pair_inverse_relations-eq batch batch-NamesAreValid

pair_inverse_relations-idempotent_example :
    pair_inverse_relations (paired_company ∷ contact ∷ [])
    ≡ some (ok (paired_company ∷ contact ∷ []))
pair_inverse_relations-idempotent_example =
    pair_inverse_relations-idempotent batch (paired_company ∷ contact ∷ []) batch-NamesAreValid
      pair_batch
