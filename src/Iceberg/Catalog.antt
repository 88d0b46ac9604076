-- ===== src/Iceberg/Catalog.antt =====
-- internal/iceberg/client.go. A time is a number of seconds.
use neksur.Prelude.{ℕ, Bool, List, Bytes}
use neksur.Cel.Value.{ℤ, Fields}

pub record StsCredentials : Type 0 where
  pub access_key_id : Bytes
  pub secret_access_key : Bytes
  pub session_token : Bytes
  pub expiration : ℕ
  pub region : Bytes

pub record TableRef : Type 0 where
  pub namespace : List Bytes
  pub name : Bytes

-- What the code reads of `Capabilities`.
pub record Capabilities : Type 0 where
  pub name : Bytes
  pub supports_cred_vend : Bool

pub record SchemaField : Type 0 where
  pub field_id : ℤ
  pub field_name : Bytes
  pub field_type : Bytes
  pub required : Bool
  pub doc : Bytes

pub record PartitionField : Type 0 where
  pub source_column_id : ℤ
  pub transform : Bytes
  pub partition_name : Bytes

pub record PartitionSpec : Type 0 where
  pub spec_id : ℤ
  pub fields : List PartitionField

-- What the code reads of a `Snapshot`.
pub record Snapshot : Type 0 where
  pub snapshot_id : ℤ
  pub parent_snapshot_id : ℤ
  pub timestamp_ms : ℤ
  pub operation : Bytes
  pub snapshot_metadata : Bytes

pub record TableMetadata : Type 0 where
  pub uuid : Bytes
  pub schema : List SchemaField
  pub partition_spec : PartitionSpec
  pub current_snapshot_id : ℤ
  pub metadata_location : Bytes
  pub snapshots : List Snapshot
  pub properties : List (Bytes × Bytes)

-- A requirement and an update are untyped maps.
pub record CommitRequest : Type 0 where
  pub requirements : List Fields
  pub updates : List Fields

pub record CommitResult : Type 0 where
  pub new_metadata_location : Bytes
  pub new_snapshot_id : ℤ

-- The sentinel errors that a commit tells apart; any other is `catalog_failed`.
pub data CatalogError : Type 0 where
  table_not_found : CatalogError
  commit_conflict : CatalogError
  credentials_expired : CatalogError
  catalog_failed : CatalogError
