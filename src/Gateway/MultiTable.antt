-- ===== src/Gateway/MultiTable.antt =====
-- `MultiTableCommitHandler` of internal/gateway/iceberg/multi_table.go, with the arguments and events of
-- the commit of one table.
use neksur.Prelude.{
  Bool, not, ◌&&◌, Option, none, some, List, [], ◌∷◌, ◌++◌, if◌then◌else◌, Bytes, is_empty, all, ok,
  err,
}
use neksur.Cel.Value.{Fields}
use neksur.Iceberg.Catalog.{
  TableRef, CommitRequest, CommitResult, table_not_found, commit_conflict, credentials_expired,
}
use neksur.Credvend.Handler.{credentials_not_found, cred_store_failed}
use neksur.Proxy.Handler.{is_identifier}
use neksur.Gateway.Project.{Principal}
use neksur.Gateway.Commit.{
  Event, committed, audit_approved, CatalogAdapter, GatewayDeps, CommitReply, refuse, inputs_of,
  logged, ingest, judge,
}

pub record TableChange : Type 0 where
  pub identifier : TableRef
  pub requirements : List Fields
  pub updates : List Fields

-- `commit` is the body, `none` if it is too long, cannot be read or has another shape.
pub record MultiTableHttp : Type 0 where
  pub is_post : Bool
  pub tenant : Option Bytes
  pub prefix : Bytes
  pub principal : Option Principal
  pub table_changes : Option (List TableChange)

unfoldable pub request_of : TableChange → CommitRequest
request_of tc = record { requirements = tc.requirements; updates = tc.updates }

unfoldable pub has_identifiers : TableRef → Bool
unfolding is_identifier
has_identifiers ref = is_identifier ref.name && all is_identifier ref.namespace

abbrev with_result : CommitResult → Option (List CommitResult) → Option (List CommitResult)
with_result result none = none
with_result result (some results) = some (result ∷ results)

-- Step 9: the loop over the refs. A failure leaves what was committed before it.
unfoldable pub forward_all : (Event → Bool) → CatalogAdapter → List TableChange → CommitReply
unfolding request_of logged ingest
forward_all fails adapter [] = record { status = 200; results = some []; events = [] }
forward_all fails adapter (tc ∷ tcs) =
    let rest = forward_all fails adapter tcs in
    elim (adapter.commit_table tc.identifier (request_of tc)) [
      | err commit_conflict ↦ record {
        status = 409;
        results = none;
        events = committed tc.identifier (request_of tc) none ∷ [];
      }
      | err _ ↦ record {
        status = 502;
        results = none;
        events = committed tc.identifier (request_of tc) none ∷ [];
      }
      | ok result ↦ record {
        status = rest.status;
        results = with_result result rest.results;
        events =
            committed tc.identifier (request_of tc) none
            ∷ (logged fails (audit_approved tc.identifier) ++ (ingest result ++ rest.events));
      }
    ]

module _ {Credentials : Type 0} (deps : GatewayDeps Credentials) where
  -- Step 8: the gate of all refs, and what follows it.
  unfoldable pub gate : CatalogAdapter → Principal → CommitReply → List TableChange → CommitReply
  unfolding has_identifiers request_of inputs_of judge
  gate adapter principal forwarded [] = forwarded
  gate adapter principal forwarded (tc ∷ tcs) =
      let rest = gate adapter principal forwarded tcs in
      if not (has_identifiers tc.identifier)
      then refuse 400
      else elim (adapter.load_table tc.identifier) [
        | err table_not_found ↦ refuse 404
        | err credentials_expired ↦ refuse 401
        | err _ ↦ refuse 502
        | ok current ↦ elim (deps.load_policies_for_table tc.identifier) [
          | none ↦ refuse 503
          | some policies ↦
              judge deps.evaluator deps.audit_fails tc.identifier
                (inputs_of current (request_of tc) principal) rest policies
        ]
      ]

  -- Steps 6 to 10.
  unfoldable pub commit_all : Bytes → Bytes → Principal → List TableChange → CommitReply
  unfolding gate forward_all
  commit_all tid prefix principal tcs = elim (deps.catalog_credentials tid prefix) [
    | err credentials_not_found ↦ refuse 404
    | err cred_store_failed ↦ refuse 500
    | ok row ↦ elim (deps.adapter_factory row) [
      | none ↦ refuse 500
      | some adapter ↦ gate adapter principal (forward_all deps.audit_fails adapter tcs) tcs
    ]
  ]

  -- Steps 3 to 5.
  unfoldable pub with_changes : Bytes → MultiTableHttp → CommitReply
  unfolding commit_all
  with_changes tid r = elim r.principal [
    | none ↦ refuse 401
    | some principal ↦ if is_empty principal.sub then refuse 401 else elim r.table_changes [
      | none ↦ refuse 400
      | some tcs ↦ if is_empty tcs then refuse 400 else commit_all tid r.prefix principal tcs
    ]
  ]

  unfoldable pub multi_table_commit_handler : MultiTableHttp → CommitReply
  unfolding with_changes is_identifier
  multi_table_commit_handler r = if not r.is_post then refuse 405 else elim r.tenant [
    | none ↦ refuse 500
    | some tid ↦ if not (is_identifier r.prefix) then refuse 400 else with_changes tid r
  ]
