-- ===== src/Gateway/Unseen.antt =====
-- What a policy that is evaluated at a commit sees through the bindings of internal/policy/cel.
use neksur.Prelude.{
  none, some, ◌≡◌, refl, ap, Bool, true, false, Option, List, [], ◌∷◌, Bytes, same, if◌then◌else◌,
  Option-cases, inl, inr,
}
use neksur.Cel.Value.{find_string, find_slice}
use neksur.Cel.Functions.{
  name_of, has_field_named, has_column_impl, classification_satisfied_impl, location_region_impl,
  partition_spec_impl,
}
use neksur.Cel.Attribute.{Resolver, principal_attribute_eval}
use neksur.Iceberg.Catalog.{SchemaField, TableMetadata, CommitRequest}
use neksur.Gateway.Project.{
  Principal, schema_fields, table_metadata_to_map, commit_request_to_map, principal_to_map,
}

classification_unseen :
    (compile : Bytes → Option (Bytes → Bool)) (t : TableMetadata) (pattern tag : Bytes)
    → classification_satisfied_impl compile (table_metadata_to_map t) pattern tag ≡ false
unfolding classification_satisfied_impl table_metadata_to_map find_slice
classification_unseen compile t pattern tag = elim (Option-cases (compile pattern)) [
  | inl m ↦ rw (classification_satisfied_impl, m) refl
  | inr (matches, m) ↦ rw (classification_satisfied_impl, m) refl
]

-- In the inputs of a commit, whatever the table, the request and the principal are: a required
-- classification is never satisfied, the region of the commit is the empty text, the partition spec
-- has no entry, and an attribute is what the resolver finds for the principal's subject without any
-- claim, or the empty text if there is no resolver.
pub gateway_unseen :
    (compile : Bytes → Option (Bytes → Bool)) (t : TableMetadata) (c : CommitRequest)
    (p : Principal) (pattern tag name : Bytes) (resolve : Resolver)
    → (classification_satisfied_impl compile (table_metadata_to_map t) pattern tag ≡ false)
      × (location_region_impl (commit_request_to_map c) ≡ [])
      × (partition_spec_impl (table_metadata_to_map t) ≡ [])
      × (principal_attribute_eval (some resolve) (principal_to_map p) name ≡ resolve p.sub name [])
      × (principal_attribute_eval none (principal_to_map p) name ≡ [])
unfolding location_region_impl commit_request_to_map partition_spec_impl table_metadata_to_map
    principal_attribute_eval principal_to_map
gateway_unseen compile t c p pattern tag name resolve =
    (classification_unseen compile t pattern tag, refl, refl, refl, refl)

-- A field of the schema has the name.
pub has_name : Bytes → List SchemaField → Bool
has_name name [] = false
has_name name (f ∷ fs) = if same f.field_name name then true else has_name name fs

fields_have_name :
    (name : Bytes) (fs : List SchemaField)
    → has_field_named name (schema_fields fs) ≡ has_name name fs
unfolding has_field_named name_of find_string schema_fields has_name
fields_have_name name [] = refl
fields_have_name name (f ∷ fs) =
    ap (λ x. if same f.field_name name then true else x) (fields_have_name name fs)

-- At a commit, `has_column` is true exactly if the schema of the table as it was loaded has a field with
-- the name; the request, and the columns that it adds, do not count.
pub has_column_at_commit :
    (t : TableMetadata) (name : Bytes)
    → has_column_impl (table_metadata_to_map t) name ≡ has_name name t.schema
unfolding has_column_impl table_metadata_to_map
has_column_at_commit t name = fields_have_name name t.schema
