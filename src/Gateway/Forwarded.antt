-- ===== src/Gateway/Forwarded.antt =====
-- Which commits `CommitHandler` of internal/gateway/iceberg/handler.go forwards to the catalog.
use neksur.Prelude.{
  ◌≡◌, refl, ◌↔◌, inl, inr, Bool, true, false, ◌||◌, Option, some, List, [], ◌∷◌, Bytes, Bool-cases,
  Option-cases, Result-cases, ok,
}
use neksur.Cel.Evaluate.{Policy, Inputs, action_allow, action_deny, Runtime, evaluate}
use neksur.Iceberg.Catalog.{
  TableRef, TableMetadata, CommitRequest, table_not_found, commit_conflict, credentials_expired,
  catalog_failed,
}
use neksur.Gateway.Project.{Principal}
use neksur.Gateway.Commit.{
  Event, committed, audit_rejected, CatalogAdapter, GatewayDeps, CommitReply, inputs_of, forward,
  judge, decide_commit,
}

is_commit : Event → Bool
is_commit (committed _ _ _) = true
is_commit _ = false

-- The catalog is asked for a commit.
unfoldable pub has_commit : List Event → Bool
unfolding is_commit
has_commit [] = false
has_commit (e ∷ es) = is_commit e || has_commit es

-- Each policy is evaluated to `true`.
pub Allowed : Runtime → Inputs → List Policy → Type 0
Allowed rt inputs [] = Unit
Allowed rt inputs (p ∷ ps) = (evaluate rt p inputs ≡ ok action_allow) × Allowed rt inputs ps

module _ (rt : Runtime) (fails : Event → Bool) (ref : TableRef) (inputs : Inputs)
    (forwarded : CommitReply) where
  pub judge-Allowed :
      (ps : List Policy)
      → has_commit (judge rt fails ref inputs forwarded ps).events ≡ true
      → Allowed rt inputs ps
  unfolding judge Allowed has_commit
  judge-Allowed [] h = tt
  judge-Allowed (p ∷ ps) h = elim (Result-cases (evaluate rt p inputs)) [
    | inr (e, k) ↦ cc (simp (judge, k) at h)
    | inl (action_allow, k) ↦ (k, judge-Allowed ps (simp (judge, k) at h))
    | inl (action_deny, k) ↦ elim (Bool-cases (fails (audit_rejected ref p.id))) [
      | inl f ↦ cc (simp (judge, k, f) at h)
      | inr f ↦ cc (simp (judge, k, f) at h)
    ]
  ]

  pub Allowed-judge :
      (ps : List Policy) → Allowed rt inputs ps → judge rt fails ref inputs forwarded ps ≡ forwarded
  unfolding judge Allowed
  Allowed-judge [] h = refl
  Allowed-judge (p ∷ ps) (k, h) = simp (judge, k) (Allowed-judge ps h)

forward_commits :
    (fails : Event → Bool) (adapter : CatalogAdapter) (ref : TableRef) (commit : CommitRequest)
    (conflict : Option Bytes)
    → has_commit (forward fails adapter ref commit conflict).events ≡ true
unfolding forward has_commit
forward_commits fails adapter ref commit conflict =
    elim (Result-cases (adapter.commit_table ref commit)) [
      | inl (result, e) ↦ simp (forward, e) refl
      | inr (commit_conflict, e) ↦ simp (forward, e) refl
      | inr (table_not_found, e) ↦ simp (forward, e) refl
      | inr (credentials_expired, e) ↦ simp (forward, e) refl
      | inr (catalog_failed, e) ↦ simp (forward, e) refl
    ]

module _ {Credentials : Type 0} (deps : GatewayDeps Credentials) where
  -- The policies of the table were loaded, and all of them allow the commit.
  unfoldable pub PoliciesAllow : TableRef → TableMetadata → CommitRequest → Principal → Type 0
  PoliciesAllow ref current commit principal =
      (policies : List Policy) × (deps.load_policies_for_table ref ≡ some policies)
      × Allowed deps.evaluator (inputs_of current commit principal) policies

  pub decide_commit-PoliciesAllow :
      (adapter : CatalogAdapter) (ref : TableRef) (current : TableMetadata) (commit : CommitRequest)
      (principal : Principal) (conflict : Option Bytes)
      → (has_commit (decide_commit deps adapter ref current commit principal conflict).events
          ≡ true)
        ↔ PoliciesAllow ref current commit principal
  unfolding decide_commit PoliciesAllow has_commit
  decide_commit-PoliciesAllow adapter ref current commit principal conflict = (there, back)
    where
      there :
          has_commit (decide_commit deps adapter ref current commit principal conflict).events
            ≡ true
          → PoliciesAllow ref current commit principal
      there h = elim (Option-cases (deps.load_policies_for_table ref)) [
        | inl m ↦ cc (simp (decide_commit, m) at h)
        | inr (ps, m) ↦ (
          ps,
          m,
          judge-Allowed deps.evaluator deps.audit_fails ref (inputs_of current commit principal)
              (forward deps.audit_fails adapter ref commit conflict) ps
              (simp (decide_commit, m) at h),
        )
      ]

      back :
          PoliciesAllow ref current commit principal
          → has_commit (decide_commit deps adapter ref current commit principal conflict).events
            ≡ true
      back (ps, m, all_allow) =
          let e =
            Allowed-judge deps.evaluator deps.audit_fails ref (inputs_of current commit principal)
              (forward deps.audit_fails adapter ref commit conflict) ps all_allow in
          simp (decide_commit, m, e) (forward_commits deps.audit_fails adapter ref commit conflict)
