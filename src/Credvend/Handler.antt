-- ===== src/Credvend/Handler.antt =====
-- `Handler` of internal/credvend/handler.go. The decoder of the body, the credential store and the
-- builder of adapters are arguments; messages and counters are left out.
use neksur.Prelude.{
  ℕ, Bool, not, ◌&&◌, ◌||◌, Option, none, some, [], ◌∷◌, if◌then◌else◌, ◌==◌, leb, Bytes, is_empty,
  all, Lru, Result, ok, err,
}
use neksur.Iceberg.Catalog.{StsCredentials, TableRef}
use neksur.Credvend.Cache.{CacheKey, CachedCreds}
use neksur.Credvend.Service.{
  Adapter, IssueError, engine_not_supported, cred_vend_unavailable, issue,
}

pub record IssueStsRequest : Type 0 where
  pub catalog_nickname : Bytes
  pub table_namespace : Bytes
  pub table_name : Bytes
  pub request_region : Bytes

-- The errors of the credential store: `ErrCredentialsNotFound`, and any other.
pub data CredStoreError : Type 0 where
  credentials_not_found : CredStoreError
  cred_store_failed : CredStoreError

pub record Deps (Credentials : Type 0) : Type 0 where
  pub get_catalog_credentials : Bytes → Bytes → Result CredStoreError Credentials
  pub adapter_builder : Credentials → Option Adapter

-- `identifierRegex`, `^[a-zA-Z0-9_.\-]+$`
unfoldable pub is_cred_identifier : Bytes → Bool
is_cred_identifier s =
    not (is_empty s)
    && all
        (λ c.
          (leb b'a' c && leb c b'z')
          || (leb b'A' c && leb c b'Z')
          || (leb b'0' c && leb c b'9')
          || c == b'_'
          || c == b'.'
          || c == b'-')
        s

-- `identifierRegex` on the four fields, in the order of the code; each refusal is status 400.
unfoldable pub is_valid_request : IssueStsRequest → Bool
unfolding is_cred_identifier
is_valid_request req =
    is_cred_identifier req.catalog_nickname
    && is_cred_identifier req.table_namespace
    && is_cred_identifier req.table_name
    && is_cred_identifier req.request_region

-- Status 200 comes with the credentials.
unfoldable pub issue_status : Result IssueError StsCredentials → ℕ × Option StsCredentials
issue_status (ok creds) = (200, some creds)
issue_status (err engine_not_supported) = (501, none)
issue_status (err cred_vend_unavailable) = (503, none)

unfoldable pub table_ref : IssueStsRequest → TableRef
table_ref req = record { namespace = req.table_namespace ∷ []; name = req.table_name }

module _ {Cache Credentials : Type 0} (lru : Lru CacheKey CachedCreds Cache)
    (deps : Deps Credentials) where
  -- With the adapter.
  unfoldable pub vend :
      ℕ → Bytes → Adapter → IssueStsRequest → Cache → (ℕ × Option StsCredentials) × Cache
  unfolding issue issue_status table_ref
  vend now tid adapter req c =
      let (result, d) = issue lru now tid adapter (table_ref req) req.request_region c in
      (issue_status result, d)

  -- A body is `none` if it is too long or is not JSON.
  unfoldable pub handle :
      ℕ → Option Bytes → Option IssueStsRequest → Cache → (ℕ × Option StsCredentials) × Cache
  unfolding vend is_valid_request
  handle now none body c = ((500, none), c)
  handle now (some tid) none c = ((400, none), c)
  handle now (some tid) (some req) c =
      if not (is_valid_request req)
      then ((400, none), c)
      else elim (deps.get_catalog_credentials tid req.catalog_nickname) [
        | err credentials_not_found ↦ ((404, none), c)
        | err cred_store_failed ↦ ((503, none), c)
        | ok creds ↦ elim (deps.adapter_builder creds) [
          | none ↦ ((503, none), c)
          | some adapter ↦ vend now tid adapter req c
        ]
      ]
