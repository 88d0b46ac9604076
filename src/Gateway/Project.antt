-- ===== src/Gateway/Project.antt =====
-- The projections of internal/gateway/iceberg/handler.go for CEL. `projectViaJSON` gives back what is
-- already made of JSON's values; a number that a double cannot hold is not modelled.
use neksur.Prelude.{List, [], ◌∷◌, Bytes, codes}
use neksur.Cel.Value.{
  Any, any_string, any_bool, any_number, any_map, any_slice, Fields, no_fields, field, Items,
  no_items, item,
}
use neksur.Iceberg.Catalog.{
  SchemaField, PartitionField, PartitionSpec, Snapshot, TableMetadata, CommitRequest,
}

pub record Principal : Type 0 where
  pub sub : Bytes
  pub email : Bytes
  pub roles : List Bytes

schema_field : SchemaField → Any
schema_field f = any_map (
    field (codes "id") (any_number f.field_id) (
      field (codes "name") (any_string f.field_name) (
        field (codes "type") (any_string f.field_type) (
          field (codes "required") (any_bool f.required)
            (field (codes "doc") (any_string f.doc) no_fields)))))

unfoldable pub schema_fields : List SchemaField → Items
unfolding schema_field
schema_fields [] = no_items
schema_fields (f ∷ fs) = item (schema_field f) (schema_fields fs)

unfoldable pub schema_to_map : List SchemaField → Fields
unfolding schema_fields
schema_to_map fs = field (codes "fields") (any_slice (schema_fields fs)) no_fields

unfoldable pub partition_fields : List PartitionField → Items
partition_fields [] = no_items
partition_fields (f ∷ fs) =
    item
      (any_map (
        field (codes "source_column_id") (any_number f.source_column_id) (
          field (codes "transform") (any_string f.transform)
            (field (codes "name") (any_string f.partition_name) no_fields))))
      (partition_fields fs)

unfoldable pub partition_spec_to_map : PartitionSpec → Fields
unfolding partition_fields
partition_spec_to_map ps =
    field (codes "spec_id") (any_number ps.spec_id)
      (field (codes "fields") (any_slice (partition_fields ps.fields)) no_fields)

unfoldable pub snapshots_to_list : List Snapshot → Items
snapshots_to_list [] = no_items
snapshots_to_list (s ∷ ss) =
    item
      (any_map (
        field (codes "snapshot_id") (any_number s.snapshot_id) (
          field (codes "parent_snapshot_id") (any_number s.parent_snapshot_id) (
            field (codes "timestamp_ms") (any_number s.timestamp_ms) (
              field (codes "operation") (any_string s.operation)
                (field (codes "metadata_location") (any_string s.snapshot_metadata) no_fields))))))
      (snapshots_to_list ss)

unfoldable pub string_map_to_any : List (Bytes × Bytes) → Fields
string_map_to_any [] = no_fields
string_map_to_any ((k, v) ∷ rest) = field k (any_string v) (string_map_to_any rest)

unfoldable pub table_metadata_to_map : TableMetadata → Fields
unfolding schema_to_map partition_spec_to_map snapshots_to_list string_map_to_any
table_metadata_to_map t = field (codes "uuid") (any_string t.uuid) (
    field (codes "schema") (any_map (schema_to_map t.schema)) (
      field (codes "partition_spec") (any_map (partition_spec_to_map t.partition_spec)) (
        field (codes "current_snapshot_id") (any_number t.current_snapshot_id) (
          field (codes "metadata_location") (any_string t.metadata_location) (
            field (codes "snapshots") (any_slice (snapshots_to_list t.snapshots))
              (field (codes "properties") (any_map (string_map_to_any t.properties)) no_fields))))))

unfoldable pub maps_to_list : List Fields → Items
maps_to_list [] = no_items
maps_to_list (m ∷ ms) = item (any_map m) (maps_to_list ms)

unfoldable pub commit_request_to_map : CommitRequest → Fields
unfolding maps_to_list
commit_request_to_map c =
    field (codes "requirements") (any_slice (maps_to_list c.requirements))
      (field (codes "updates") (any_slice (maps_to_list c.updates)) no_fields)

unfoldable pub roles_to_list : List Bytes → Items
roles_to_list [] = no_items
roles_to_list (r ∷ rs) = item (any_string r) (roles_to_list rs)

unfoldable pub principal_to_map : Principal → Fields
unfolding roles_to_list
principal_to_map p = field (codes "sub") (any_string p.sub) (
    field (codes "email") (any_string p.email)
      (field (codes "roles") (any_slice (roles_to_list p.roles)) no_fields))
