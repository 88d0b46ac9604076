-- ===== src/Credvend/Replies.antt =====
-- The replies of `Handler` of internal/credvend/handler.go.
use neksur.Prelude.{
  ℕ, ◌≡◌, refl, sym, subst, inl, inr, Bool, true, ◌||◌, Option, none, some, Bytes, ◌==◌, Bool-cases,
  Option-cases, Result-cases, Lru, ok,
}
use neksur.Iceberg.Catalog.{StsCredentials}
use neksur.Credvend.Cache.{CacheKey, CachedCreds}
use neksur.Credvend.Service.{Adapter, engine_not_supported, cred_vend_unavailable, issue}
use neksur.Credvend.Handler.{
  IssueStsRequest, credentials_not_found, cred_store_failed, Deps, is_valid_request, issue_status,
  table_ref, vend, handle,
}

is_error_status : ℕ → Bool
is_error_status n = n == 400 || n == 404 || n == 500 || n == 501 || n == 503

module _ {Cache Credentials : Type 0} (lru : Lru CacheKey CachedCreds Cache)
    (deps : Deps Credentials) where
  -- What a reply has, for a request at the time and on the cache.
  pub Reply : ℕ → Option Bytes → Option IssueStsRequest → Cache → ℕ × Option StsCredentials → Type 0
  Reply now tenant body c (n, none) = is_error_status n ≡ true
  Reply now tenant body c (n, some creds) =
      (tid : Bytes) × (req : IssueStsRequest) × (row : Credentials) × (adapter : Adapter) × (n
        ≡ 200)
      × (tenant ≡ some tid)
      × (body ≡ some req)
      × (is_valid_request req ≡ true)
      × (deps.get_catalog_credentials tid req.catalog_nickname ≡ ok row)
      × (deps.adapter_builder row ≡ some adapter)
      × ((issue lru now tid adapter (table_ref req) req.request_region c).0 ≡ ok creds)

  vend-Reply :
      (now : ℕ) (tid : Bytes) (req : IssueStsRequest) (row : Credentials) (adapter : Adapter)
      (c : Cache)
      → is_valid_request req ≡ true
      → deps.get_catalog_credentials tid req.catalog_nickname ≡ ok row
      → deps.adapter_builder row ≡ some adapter
      → Reply now (some tid) (some req) c (vend lru deps now tid adapter req c).0
  unfolding vend issue_status Reply is_error_status
  vend-Reply now tid req row adapter c v g b =
      elim (Result-cases (issue lru now tid adapter (table_ref req) req.request_region c).0) [
        | inl (creds, e) ↦ rw e (tid, req, row, adapter, refl, refl, refl, v, g, b, e)
        | inr (engine_not_supported, e) ↦ rw e refl
        | inr (cred_vend_unavailable, e) ↦ rw e refl
      ]

  vended :
      (now : ℕ) (tid : Bytes) (req : IssueStsRequest) (row : Credentials) (adapter : Adapter)
      (c : Cache)
      → is_valid_request req ≡ true
      → deps.get_catalog_credentials tid req.catalog_nickname ≡ ok row
      → deps.adapter_builder row ≡ some adapter
      → handle lru deps now (some tid) (some req) c ≡ vend lru deps now tid adapter req c
  unfolding handle
  vended now tid req row adapter c v g b = rw (v, g, b) refl

  -- A reply of the handler has an error status and no credentials, or status 200 and the credentials
  -- that the service gave for the caller's tenant and the decoded request, which is well formed, with
  -- the adapter built for the tenant's own catalog of that nickname.
  pub handle-Reply :
      (now : ℕ) (tenant : Option Bytes) (body : Option IssueStsRequest) (c : Cache)
      → Reply now tenant body c (handle lru deps now tenant body c).0
  unfolding handle Reply is_error_status
  handle-Reply now none body c = refl
  handle-Reply now (some tid) none c = refl
  handle-Reply now (some tid) (some req) c = elim (Bool-cases (is_valid_request req)) [
    | inr n ↦ simp (handle, n) refl
    | inl v ↦ elim (Result-cases (deps.get_catalog_credentials tid req.catalog_nickname)) [
      | inr (credentials_not_found, e) ↦ simp (handle, v, e) refl
      | inr (cred_store_failed, e) ↦ simp (handle, v, e) refl
      | inl (row, e) ↦ elim (Option-cases (deps.adapter_builder row)) [
        | inl b ↦ simp (handle, v, e, b) refl
        | inr (adapter, b) ↦
            subst (λ x. Reply now (some tid) (some req) c x.0)
              (sym (vended now tid req row adapter c v e b))
              (vend-Reply now tid req row adapter c v e b)
      ]
    ]
  ]
