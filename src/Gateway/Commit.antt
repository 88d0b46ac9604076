-- ===== src/Gateway/Commit.antt =====
-- `CommitHandler` of internal/gateway/iceberg/handler.go. What it calls outside is an argument; what it
-- changes outside is a list of events, in their order. Counters, logging and the time stamp of the
-- snapshot are left out.
use neksur.Prelude.{
  ℕ, Bool, not, ◌&&◌, Option, none, some, List, [], ◌∷◌, ◌++◌, if◌then◌else◌, Bytes, is_empty,
  Result, ok, err,
}
use neksur.Cel.Evaluate.{Policy, Inputs, action_allow, action_deny, Runtime, evaluate}
use neksur.Iceberg.Catalog.{
  TableRef, TableMetadata, CommitRequest, CommitResult, CatalogError, table_not_found,
  commit_conflict, credentials_expired,
}
use neksur.Credvend.Handler.{CredStoreError, credentials_not_found, cred_store_failed}
use neksur.Proxy.Handler.{is_identifier}
use neksur.Gateway.Coordinator.{
  Stores, partition_spec_mismatch, store_failed, detect_engine_kind, write_coordinator_pre_commit,
}
use neksur.Gateway.Project.{
  Principal, table_metadata_to_map, commit_request_to_map, principal_to_map,
}

-- A commit that the catalog is asked for, with the conflict policy that goes with it; an audit event, of
-- a commit that was let through or was rejected by a policy; and a snapshot that is ingested.
pub data Event : Type 0 where
  committed : TableRef → CommitRequest → Option Bytes → Event
  audit_approved : TableRef → Event
  audit_rejected : TableRef → Bytes → Event
  ingested : CommitResult → Event

pub record CatalogAdapter : Type 0 where
  pub load_table : TableRef → Result CatalogError TableMetadata
  pub commit_table : TableRef → CommitRequest → Result CatalogError CommitResult

pub record GatewayDeps (Credentials : Type 0) : Type 0 where
  pub catalog_credentials : Bytes → Bytes → Result CredStoreError Credentials
  pub adapter_factory : Credentials → Option CatalogAdapter
  pub stores : Stores
  pub load_policies_for_table : TableRef → Option (List Policy)
  pub evaluator : Runtime
  -- whether `EmitWriteEvent` fails
  pub audit_fails : Event → Bool

-- What the handler reads of a request: `principal` is what `ExtractPrincipal` finds, and `commit` the
-- body, `none` if it is too long, cannot be read or is no commit.
pub record CommitHttp : Type 0 where
  pub is_post : Bool
  pub tenant : Option Bytes
  pub prefix : Bytes
  pub path_namespace : Bytes
  pub path_table : Bytes
  pub user_agent : Bytes
  pub principal : Option Principal
  pub body : Option CommitRequest

pub record CommitReply : Type 0 where
  pub status : ℕ
  -- the results that the catalog gave, if the reply has status 200
  pub results : Option (List CommitResult)
  pub events : List Event

-- A reply that changes nothing outside.
abbrev pub refuse : ℕ → CommitReply
refuse status = record { status = status; results = none; events = [] }

unfoldable pub ref_of : CommitHttp → TableRef
ref_of r = record { namespace = r.path_namespace ∷ []; name = r.path_table }

unfoldable pub inputs_of : TableMetadata → CommitRequest → Principal → Inputs
unfolding table_metadata_to_map commit_request_to_map principal_to_map
inputs_of current commit principal = record {
  table = table_metadata_to_map current;
  commit = commit_request_to_map commit;
  principal = principal_to_map principal;
}

-- Steps 11 to 14.
unfoldable pub logged : (Event → Bool) → Event → List Event
logged fails e = if fails e then [] else e ∷ []

unfoldable pub ingest : CommitResult → List Event
ingest result = if is_empty result.new_metadata_location then [] else ingested result ∷ []

unfoldable pub forward :
    (Event → Bool) → CatalogAdapter → TableRef → CommitRequest → Option Bytes → CommitReply
unfolding logged ingest
forward fails adapter ref commit conflict = elim (adapter.commit_table ref commit) [
  | err commit_conflict ↦ record {
    status = 409;
    results = none;
    events = committed ref commit conflict ∷ [];
  }
  | err _ ↦ record { status = 502; results = none; events = committed ref commit conflict ∷ [] }
  | ok result ↦ record {
    status = 200;
    results = some (result ∷ []);
    events = committed ref commit conflict ∷ (logged fails (audit_approved ref) ++ ingest result);
  }
]

-- Step 10: the loop over the policies, and what follows it.
unfoldable pub judge :
    Runtime → (Event → Bool) → TableRef → Inputs → CommitReply → List Policy → CommitReply
unfolding evaluate
judge rt fails ref inputs forwarded [] = forwarded
judge rt fails ref inputs forwarded (p ∷ ps) =
    let rest = judge rt fails ref inputs forwarded ps in
    elim (evaluate rt p inputs) [
      | err _ ↦ refuse 503
      | ok action_allow ↦ rest
      | ok action_deny ↦
          if fails (audit_rejected ref p.id)
          then refuse 503
          else record { status = 403; results = none; events = audit_rejected ref p.id ∷ [] }
    ]

module _ {Credentials : Type 0} (deps : GatewayDeps Credentials) where
  -- From step 9 on.
  unfoldable pub decide_commit :
      CatalogAdapter
      → TableRef
      → TableMetadata
      → CommitRequest
      → Principal
      → Option Bytes
      → CommitReply
  unfolding judge forward inputs_of
  decide_commit adapter ref current commit principal conflict =
      elim (deps.load_policies_for_table ref) [
        | none ↦ refuse 503
        | some policies ↦
            judge deps.evaluator deps.audit_fails ref (inputs_of current commit principal)
              (forward deps.audit_fails adapter ref commit conflict) policies
      ]

  -- From step 8 on. Without both stores the coordinator is not called, and answers as it does here.
  unfoldable pub coordinate : CatalogAdapter → CommitHttp → CommitRequest → Principal → CommitReply
  unfolding decide_commit detect_engine_kind write_coordinator_pre_commit ref_of
  coordinate adapter r commit principal = elim (adapter.load_table (ref_of r)) [
    | err table_not_found ↦ refuse 404
    | err credentials_expired ↦ refuse 401
    | err _ ↦ refuse 502
    | ok current ↦
        elim (write_coordinator_pre_commit deps.stores (detect_engine_kind r.user_agent) (ref_of r)
          current) [
            | err partition_spec_mismatch ↦ refuse 403
            | err store_failed ↦ refuse 503
            | ok conflict ↦ decide_commit adapter (ref_of r) current commit principal conflict
          ]
  ]

  -- Steps 6 and 7.
  unfoldable pub with_adapter : Bytes → CommitHttp → CommitRequest → Principal → CommitReply
  unfolding coordinate
  with_adapter tid r commit principal = elim (deps.catalog_credentials tid r.prefix) [
    | err credentials_not_found ↦ refuse 404
    | err cred_store_failed ↦ refuse 500
    | ok row ↦ elim (deps.adapter_factory row) [
      | none ↦ refuse 500
      | some adapter ↦ coordinate adapter r commit principal
    ]
  ]

  -- Steps 3 to 5.
  unfoldable pub with_body : Bytes → CommitHttp → CommitReply
  unfolding with_adapter
  with_body tid r = elim r.principal [
    | none ↦ refuse 401
    | some principal ↦
        if is_empty principal.sub
        then refuse 401
        else elim r.body [ none ↦ refuse 400 | some commit ↦ with_adapter tid r commit principal ]
  ]

  unfoldable pub commit_handler : CommitHttp → CommitReply
  unfolding with_body is_identifier
  commit_handler r = if not r.is_post then refuse 405 else elim r.tenant [
    | none ↦ refuse 500
    | some tid ↦
        if not
          (is_identifier r.prefix && is_identifier r.path_namespace && is_identifier r.path_table)
        then refuse 400
        else with_body tid r
  ]
