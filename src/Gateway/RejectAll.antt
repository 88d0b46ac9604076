-- ===== src/Gateway/RejectAll.antt =====
-- When `MultiTableCommitHandler` of internal/gateway/iceberg/multi_table.go asks the catalog for commits.
use neksur.Prelude.{
  ◌≡◌, refl, sym, ap, ◌∙◌, ◌↔◌, inl, inr, Bool, true, false, some, List, [], ◌∷◌, Bytes, is_empty,
  Bool-cases, Option-cases, Result-cases, ok,
}
use neksur.Iceberg.Catalog.{
  TableMetadata, table_not_found, commit_conflict, credentials_expired, catalog_failed,
}
use neksur.Credvend.Handler.{credentials_not_found, cred_store_failed}
use neksur.Proxy.Handler.{is_identifier}
use neksur.Gateway.Project.{Principal}
use neksur.Gateway.Commit.{Event, CatalogAdapter, GatewayDeps, CommitReply, inputs_of, judge}
use neksur.Gateway.Forwarded.{has_commit, PoliciesAllow, judge-Allowed, Allowed-judge}
use neksur.Gateway.MultiTable.{
  TableChange, MultiTableHttp, request_of, has_identifiers, forward_all, gate, commit_all,
  with_changes, multi_table_commit_handler,
}

forward_all_commits :
    (fails : Event → Bool) (adapter : CatalogAdapter) (tcs : List TableChange)
    → is_empty tcs ≡ false
    → has_commit (forward_all fails adapter tcs).events ≡ true
unfolding forward_all has_commit
forward_all_commits fails adapter [] h = cc
forward_all_commits fails adapter (tc ∷ tcs) h =
    elim (Result-cases (adapter.commit_table tc.identifier (request_of tc))) [
      | inl (result, e) ↦ simp (forward_all, e) refl
      | inr (commit_conflict, e) ↦ simp (forward_all, e) refl
      | inr (table_not_found, e) ↦ simp (forward_all, e) refl
      | inr (credentials_expired, e) ↦ simp (forward_all, e) refl
      | inr (catalog_failed, e) ↦ simp (forward_all, e) refl
    ]

module _ {Credentials : Type 0} (deps : GatewayDeps Credentials) where
  -- The change's table has well-formed names and loads, and its policies load and all allow the change.
  pub Passes : CatalogAdapter → Principal → TableChange → Type 0
  Passes adapter principal tc =
      (has_identifiers tc.identifier ≡ true)
      × (current : TableMetadata) × (adapter.load_table tc.identifier ≡ ok current)
      × PoliciesAllow deps tc.identifier current (request_of tc) principal

  pub AllPass : CatalogAdapter → Principal → List TableChange → Type 0
  AllPass adapter principal [] = Unit
  AllPass adapter principal (tc ∷ tcs) = Passes adapter principal tc × AllPass adapter principal tcs

  module _ (adapter : CatalogAdapter) (principal : Principal) (forwarded : CommitReply) where
    gate-AllPass :
        (tcs : List TableChange)
        → has_commit (gate deps adapter principal forwarded tcs).events ≡ true
        → AllPass adapter principal tcs
    unfolding gate AllPass Passes PoliciesAllow has_commit
    gate-AllPass [] h = tt
    gate-AllPass (tc ∷ tcs) h = elim (Bool-cases (has_identifiers tc.identifier)) [
      | inr a ↦ cc (simp (gate, a) at h)
      | inl a ↦ elim (Result-cases (adapter.load_table tc.identifier)) [
        | inr (table_not_found, b) ↦ cc (simp (gate, a, b) at h)
        | inr (commit_conflict, b) ↦ cc (simp (gate, a, b) at h)
        | inr (credentials_expired, b) ↦ cc (simp (gate, a, b) at h)
        | inr (catalog_failed, b) ↦ cc (simp (gate, a, b) at h)
        | inl (current, b) ↦ elim (Option-cases (deps.load_policies_for_table tc.identifier)) [
          | inl c ↦ cc (simp (gate, a, b, c) at h)
          | inr (ps, c) ↦
              let rest = gate deps adapter principal forwarded tcs in
              let inputs = inputs_of current (request_of tc) principal in
              let asked : has_commit
                    (judge deps.evaluator deps.audit_fails tc.identifier inputs rest ps).events
                  ≡ true =
                simp (gate, a, b, c) at h in
              let allow =
                judge-Allowed deps.evaluator deps.audit_fails tc.identifier inputs rest ps asked in
              (
                (a, current, b, (ps, c, allow)),
                gate-AllPass tcs (
                    ap (λ x. has_commit x.events)
                      (sym (
                        Allowed-judge deps.evaluator deps.audit_fails tc.identifier inputs rest ps
                          allow))
                    ∙ asked),
              )
        ]
      ]
    ]

    AllPass-gate :
        (tcs : List TableChange)
        → AllPass adapter principal tcs
        → gate deps adapter principal forwarded tcs ≡ forwarded
    unfolding gate AllPass Passes PoliciesAllow
    AllPass-gate [] h = refl
    AllPass-gate (tc ∷ tcs) ((a, current, b, (ps, c, allow)), later) =
        let e =
          Allowed-judge deps.evaluator deps.audit_fails tc.identifier
            (inputs_of current (request_of tc) principal)
            (gate deps adapter principal forwarded tcs) ps allow in
        simp (gate, a, b, c, e) (AllPass-gate tcs later)

  -- The tenant's catalog has credentials and an adapter, with which all changes pass.
  pub Approved : Bytes → Bytes → Principal → List TableChange → Type 0
  Approved tid prefix principal tcs =
      (row : Credentials) × (adapter : CatalogAdapter) × (deps.catalog_credentials tid prefix
        ≡ ok row)
      × (deps.adapter_factory row ≡ some adapter)
      × AllPass adapter principal tcs

  commit_all-Approved :
      (tid prefix : Bytes) (principal : Principal) (tcs : List TableChange)
      → is_empty tcs ≡ false
      → (has_commit (commit_all deps tid prefix principal tcs).events ≡ true)
        ↔ Approved tid prefix principal tcs
  unfolding commit_all Approved has_commit
  commit_all-Approved tid prefix principal tcs some_change = (there, back)
    where
      there :
          has_commit (commit_all deps tid prefix principal tcs).events ≡ true
          → Approved tid prefix principal tcs
      there h = elim (Result-cases (deps.catalog_credentials tid prefix)) [
        | inr (credentials_not_found, a) ↦ cc (simp (commit_all, a) at h)
        | inr (cred_store_failed, a) ↦ cc (simp (commit_all, a) at h)
        | inl (row, a) ↦ elim (Option-cases (deps.adapter_factory row)) [
          | inl b ↦ cc (simp (commit_all, a, b) at h)
          | inr (adapter, b) ↦ (
            row,
            adapter,
            a,
            b,
            gate-AllPass adapter principal (forward_all deps.audit_fails adapter tcs) tcs
                (simp (commit_all, a, b) at h),
          )
        ]
      ]

      back :
          Approved tid prefix principal tcs
          → has_commit (commit_all deps tid prefix principal tcs).events ≡ true
      back (row, adapter, a, b, pass) =
          let k =
            AllPass-gate adapter principal (forward_all deps.audit_fails adapter tcs) tcs pass in
          simp (commit_all, a, b, k) (forward_all_commits deps.audit_fails adapter tcs some_change)

  -- A well-formed request of a tenant with a named principal, all of whose changes are approved.
  pub AllLetThrough : MultiTableHttp → Type 0
  AllLetThrough r =
      (tid : Bytes) × (principal : Principal) × (tcs : List TableChange) × (r.is_post ≡ true)
      × (r.tenant ≡ some tid)
      × (is_identifier r.prefix ≡ true)
      × (r.principal ≡ some principal)
      × (is_empty principal.sub ≡ false)
      × (r.table_changes ≡ some tcs)
      × (is_empty tcs ≡ false)
      × Approved tid r.prefix principal tcs

  -- The catalog is asked for a commit of a transaction exactly if the request is a well-formed POST of a
  -- tenant with a principal whose subject is not empty, the tenant's catalog has credentials and an
  -- adapter, there is at least one change, and for every change the table has well-formed names and
  -- loads, and its policies load and are all evaluated to true. The write coordinator is not among the
  -- conditions.
  pub multi_table_commit_handler-AllLetThrough :
      (r : MultiTableHttp)
      → (has_commit (multi_table_commit_handler deps r).events ≡ true) ↔ AllLetThrough r
  unfolding multi_table_commit_handler with_changes AllLetThrough has_commit
  multi_table_commit_handler-AllLetThrough r = (there, back)
    where
      there : has_commit (multi_table_commit_handler deps r).events ≡ true → AllLetThrough r
      there h = elim (Bool-cases r.is_post) [
        | inr a ↦ cc (simp (multi_table_commit_handler, a) at h)
        | inl a ↦ elim (Option-cases r.tenant) [
          | inl b ↦ cc (simp (multi_table_commit_handler, a, b) at h)
          | inr (tid, b) ↦ elim (Bool-cases (is_identifier r.prefix)) [
            | inr c ↦ cc (simp (multi_table_commit_handler, a, b, c) at h)
            | inl c ↦ elim (Option-cases r.principal) [
              | inl d ↦ cc (simp (multi_table_commit_handler, with_changes, a, b, c, d) at h)
              | inr (principal, d) ↦ elim (Bool-cases (is_empty principal.sub)) [
                | inl e ↦ cc (simp (multi_table_commit_handler, with_changes, a, b, c, d, e) at h)
                | inr e ↦ elim (Option-cases r.table_changes) [
                  | inl f ↦
                      cc (simp (multi_table_commit_handler, with_changes, a, b, c, d, e, f) at h)
                  | inr (tcs, f) ↦ elim (Bool-cases (is_empty tcs)) [
                    | inl g ↦
                        cc (
                          simp (multi_table_commit_handler, with_changes, a, b, c, d, e, f, g) at h)
                    | inr g ↦ (
                      tid,
                      principal,
                      tcs,
                      a,
                      b,
                      c,
                      d,
                      e,
                      f,
                      g,
                      (commit_all-Approved tid r.prefix principal tcs g).0 (
                          simp (multi_table_commit_handler, with_changes, a, b, c, d, e, f, g) at
                            h),
                    )
                  ]
                ]
              ]
            ]
          ]
        ]
      ]

      back : AllLetThrough r → has_commit (multi_table_commit_handler deps r).events ≡ true
      back (tid, principal, tcs, a, b, c, d, e, f, g, rest) =
          simp (multi_table_commit_handler, with_changes, a, b, c, d, e, f, g)
            ((commit_all-Approved tid r.prefix principal tcs g).1 rest)
