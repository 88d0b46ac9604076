-- ===== src/Credvend/Service.antt =====
-- `Issue` of internal/credvend/service.go. The counters are left out.
use neksur.Prelude.{ℕ, not, none, some, if◌then◌else◌, Bytes, codes, join, Lru, Result, ok, err}
use neksur.Iceberg.Catalog.{StsCredentials, TableRef, Capabilities}
use neksur.Credvend.Cache.{CacheKey, CachedCreds, get, add}

-- The errors that `Issue` tells apart: `iceberg.ErrAdapterStub`, and any other.
pub data AdapterError : Type 0 where
  adapter_stub : AdapterError
  adapter_failed : AdapterError

-- What `Issue` calls of `iceberg.IcebergCatalogClient`.
pub record Adapter : Type 0 where
  pub capabilities : Capabilities
  pub issue_scoped_sts_credentials : TableRef → Bytes → Result AdapterError StsCredentials

-- `ErrEngineNotSupported`, `ErrCredVendUnavailable`
pub data IssueError : Type 0 where
  engine_not_supported : IssueError
  cred_vend_unavailable : IssueError

unfoldable pub key_for : Bytes → TableRef → Bytes → CacheKey
unfolding join
key_for tenant table region = record {
  tenant_id = tenant;
  namespace = join (codes ".") table.namespace;
  table_name = table.name;
  region = region;
}

module _ {Cache : Type 0} (lru : Lru CacheKey CachedCreds Cache) where
  -- Behind a miss.
  unfoldable pub issue_anew :
      ℕ → Bytes → Adapter → TableRef → Bytes → Cache → Result IssueError StsCredentials × Cache
  unfolding key_for add
  issue_anew now tenant adapter table region c =
      if not adapter.capabilities.supports_cred_vend
      then (err engine_not_supported, c)
      else elim (adapter.issue_scoped_sts_credentials table region) [
        | err adapter_stub ↦ (err engine_not_supported, c)
        | err adapter_failed ↦ (err cred_vend_unavailable, c)
        | ok creds ↦ (ok creds, add lru now (key_for tenant table region) creds c)
      ]

  unfoldable pub issue :
      ℕ → Bytes → Adapter → TableRef → Bytes → Cache → Result IssueError StsCredentials × Cache
  unfolding get key_for issue_anew
  issue now tenant adapter table region c = elim (get lru now (key_for tenant table region) c).0 [
    | some creds ↦ (ok creds, (get lru now (key_for tenant table region) c).1)
    | none ↦
        issue_anew now tenant adapter table region (get lru now (key_for tenant table region) c).1
  ]
