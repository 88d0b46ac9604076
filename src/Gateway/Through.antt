-- ===== src/Gateway/Through.antt =====
-- All that has to hold for `CommitHandler` of internal/gateway/iceberg/handler.go to forward a commit.
use neksur.Prelude.{
  ◌≡◌, ◌↔◌, inl, inr, true, false, ◌&&◌, Option, some, Bytes, is_empty, Bool-cases, Option-cases,
  Result-cases, ok,
}
use neksur.Iceberg.Catalog.{
  TableMetadata, CommitRequest, table_not_found, commit_conflict, credentials_expired,
  catalog_failed,
}
use neksur.Credvend.Handler.{credentials_not_found, cred_store_failed}
use neksur.Proxy.Handler.{is_identifier}
use neksur.Gateway.Coordinator.{
  partition_spec_mismatch, store_failed, detect_engine_kind, write_coordinator_pre_commit,
}
use neksur.Gateway.Project.{Principal}
use neksur.Gateway.Commit.{
  CatalogAdapter, GatewayDeps, CommitHttp, ref_of, coordinate, with_adapter, with_body,
  commit_handler,
}
use neksur.Gateway.Forwarded.{has_commit, PoliciesAllow, decide_commit-PoliciesAllow}

module _ {Credentials : Type 0} (deps : GatewayDeps Credentials) where
  -- The table was loaded, the coordinator lets the commit pass, and so do the policies.
  pub Coordinated : CatalogAdapter → CommitHttp → CommitRequest → Principal → Type 0
  Coordinated adapter r commit principal =
      (current : TableMetadata) × (conflict : Option Bytes) × (adapter.load_table (ref_of r)
        ≡ ok current)
      × (write_coordinator_pre_commit deps.stores (detect_engine_kind r.user_agent) (ref_of r)
            current
          ≡ ok conflict)
      × PoliciesAllow deps (ref_of r) current commit principal

  coordinate-Coordinated :
      (adapter : CatalogAdapter) (r : CommitHttp) (commit : CommitRequest) (principal : Principal)
      → (has_commit (coordinate deps adapter r commit principal).events ≡ true)
        ↔ Coordinated adapter r commit principal
  unfolding coordinate Coordinated has_commit
  coordinate-Coordinated adapter r commit principal = (there, back)
    where
      there :
          has_commit (coordinate deps adapter r commit principal).events ≡ true
          → Coordinated adapter r commit principal
      there h = elim (Result-cases (adapter.load_table (ref_of r))) [
        | inr (table_not_found, e) ↦ cc (simp (coordinate, e) at h)
        | inr (commit_conflict, e) ↦ cc (simp (coordinate, e) at h)
        | inr (credentials_expired, e) ↦ cc (simp (coordinate, e) at h)
        | inr (catalog_failed, e) ↦ cc (simp (coordinate, e) at h)
        | inl (current, e) ↦
            elim (Result-cases (
              write_coordinator_pre_commit deps.stores (detect_engine_kind r.user_agent) (ref_of r)
                current)) [
                  | inr (partition_spec_mismatch, k) ↦ cc (simp (coordinate, e, k) at h)
                  | inr (store_failed, k) ↦ cc (simp (coordinate, e, k) at h)
                  | inl (conflict, k) ↦ (
                    current,
                    conflict,
                    e,
                    k,
                    (decide_commit-PoliciesAllow deps adapter (ref_of r) current commit principal
                          conflict).0
                        (simp (coordinate, e, k) at h),
                  )
                ]
      ]

      back :
          Coordinated adapter r commit principal
          → has_commit (coordinate deps adapter r commit principal).events ≡ true
      back (current, conflict, e, k, allow) =
          simp (coordinate, e, k)
            ((decide_commit-PoliciesAllow deps adapter (ref_of r) current commit principal
                conflict).1
              allow)

  pub Adapted : Bytes → CommitHttp → CommitRequest → Principal → Type 0
  Adapted tid r commit principal =
      (row : Credentials) × (adapter : CatalogAdapter) × (deps.catalog_credentials tid r.prefix
        ≡ ok row)
      × (deps.adapter_factory row ≡ some adapter)
      × Coordinated adapter r commit principal

  with_adapter-Adapted :
      (tid : Bytes) (r : CommitHttp) (commit : CommitRequest) (principal : Principal)
      → (has_commit (with_adapter deps tid r commit principal).events ≡ true)
        ↔ Adapted tid r commit principal
  unfolding with_adapter Adapted has_commit
  with_adapter-Adapted tid r commit principal = (there, back)
    where
      there :
          has_commit (with_adapter deps tid r commit principal).events ≡ true
          → Adapted tid r commit principal
      there h = elim (Result-cases (deps.catalog_credentials tid r.prefix)) [
        | inr (credentials_not_found, e) ↦ cc (simp (with_adapter, e) at h)
        | inr (cred_store_failed, e) ↦ cc (simp (with_adapter, e) at h)
        | inl (row, e) ↦ elim (Option-cases (deps.adapter_factory row)) [
          | inl k ↦ cc (simp (with_adapter, e, k) at h)
          | inr (adapter, k) ↦ (
            row,
            adapter,
            e,
            k,
            (coordinate-Coordinated adapter r commit principal).0 (simp (with_adapter, e, k) at h),
          )
        ]
      ]

      back :
          Adapted tid r commit principal
          → has_commit (with_adapter deps tid r commit principal).events ≡ true
      back (row, adapter, e, k, rest) =
          simp (with_adapter, e, k) ((coordinate-Coordinated adapter r commit principal).1 rest)

  -- A well-formed request of a tenant with a named principal, for a table whose policies all allow it.
  pub LetThrough : CommitHttp → Type 0
  LetThrough r =
      (tid : Bytes) × (principal : Principal) × (commit : CommitRequest) × (r.is_post ≡ true)
      × (r.tenant ≡ some tid)
      × (is_identifier r.prefix && is_identifier r.path_namespace && is_identifier r.path_table
          ≡ true)
      × (r.principal ≡ some principal)
      × (is_empty principal.sub ≡ false)
      × (r.body ≡ some commit)
      × Adapted tid r commit principal

  -- The catalog is asked for a commit exactly if the request is a well-formed POST of a tenant with a
  -- principal whose subject is not empty, the tenant's catalog has credentials and an adapter, the
  -- table loads, the write coordinator lets the commit pass, the table's policies load, and each of
  -- them is evaluated to true on the table, the request and the principal.
  pub commit_handler-LetThrough :
      (r : CommitHttp) → (has_commit (commit_handler deps r).events ≡ true) ↔ LetThrough r
  unfolding commit_handler with_body LetThrough has_commit
  commit_handler-LetThrough r = (there, back)
    where
      there : has_commit (commit_handler deps r).events ≡ true → LetThrough r
      there h = elim (Bool-cases r.is_post) [
        | inr a ↦ cc (simp (commit_handler, a) at h)
        | inl a ↦ elim (Option-cases r.tenant) [
          | inl b ↦ cc (simp (commit_handler, a, b) at h)
          | inr (tid, b) ↦
              elim (Bool-cases (
                is_identifier r.prefix
                && is_identifier r.path_namespace
                && is_identifier r.path_table)) [
                  | inr c ↦ cc (simp (commit_handler, a, b, c) at h)
                  | inl c ↦ elim (Option-cases r.principal) [
                    | inl d ↦ cc (simp (commit_handler, with_body, a, b, c, d) at h)
                    | inr (principal, d) ↦ elim (Bool-cases (is_empty principal.sub)) [
                      | inl e ↦ cc (simp (commit_handler, with_body, a, b, c, d, e) at h)
                      | inr e ↦ elim (Option-cases r.body) [
                        | inl f ↦ cc (simp (commit_handler, with_body, a, b, c, d, e, f) at h)
                        | inr (commit, f) ↦ (
                          tid,
                          principal,
                          commit,
                          a,
                          b,
                          c,
                          d,
                          e,
                          f,
                          (with_adapter-Adapted tid r commit principal).0
                              (simp (commit_handler, with_body, a, b, c, d, e, f) at h),
                        )
                      ]
                    ]
                  ]
                ]
        ]
      ]

      back : LetThrough r → has_commit (commit_handler deps r).events ≡ true
      back (tid, principal, commit, a, b, c, d, e, f, rest) =
          simp (commit_handler, with_body, a, b, c, d, e, f)
            ((with_adapter-Adapted tid r commit principal).1 rest)
