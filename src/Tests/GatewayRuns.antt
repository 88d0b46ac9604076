-- ===== src/Tests/GatewayRuns.antt =====
-- internal/gateway/iceberg and internal/policy/cel, at a commit to a table of one tenant.
use neksur.Prelude.{
  ◌≡◌, refl, ◌↔◌, Bool, true, false, Option, none, some, List, [], ◌∷◌, Bytes, codes, same, ok,
}
use neksur.Cel.Value.{
  pos, Any, any_string, any_bool, any_map, any_slice, Fields, no_fields, field, no_items, item,
}
use neksur.Cel.Functions.{
  has_column_impl, classification_satisfied_impl, location_region_impl, partition_spec_impl,
  principal_role_impl,
}
use neksur.Cel.Attribute.{Resolver, principal_attribute_eval}
use neksur.Cel.Evaluate.{Policy, returned, Runtime}
use neksur.Cel.Found.{HasColumn, has_column_impl-HasColumn}
use neksur.Cel.Tagged.{Satisfied, classification_satisfied_impl-Satisfied}
use neksur.Iceberg.Catalog.{TableRef, TableMetadata, CommitRequest, CommitResult}
use neksur.Gateway.Coordinator.{detect_engine_kind}
use neksur.Gateway.Project.{
  Principal, table_metadata_to_map, commit_request_to_map, principal_to_map,
}
use neksur.Gateway.Commit.{
  committed, audit_approved, audit_rejected, ingested, CatalogAdapter, GatewayDeps, CommitHttp,
  commit_handler,
}
use neksur.Gateway.Forwarded.{has_commit}
use neksur.Gateway.Through.{LetThrough, commit_handler-LetThrough}
use neksur.Gateway.MultiTable.{TableChange, MultiTableHttp, multi_table_commit_handler}
use neksur.Gateway.RejectAll.{AllLetThrough, multi_table_commit_handler-AllLetThrough}
use neksur.Gateway.Unseen.{gateway_unseen, has_name, has_column_at_commit}

abbrev orders : TableMetadata
orders = record {
  uuid = codes "u";
  schema =
      record {
        field_id = pos 1;
        field_name = codes "id";
        field_type = codes "long";
        required = true;
        doc = [];
      }
      ∷ [];
  partition_spec = record { spec_id = pos 1; fields = [] };
  current_snapshot_id = pos 7;
  metadata_location = codes "s3://lake/m";
  snapshots = [];
  properties = [];
}

abbrev result : CommitResult
result = record { new_metadata_location = codes "s3://lake/n"; new_snapshot_id = pos 8 }

abbrev request : CommitRequest
request = record { requirements = []; updates = [] }

abbrev ada : Principal
ada = record { sub = codes "ada"; email = []; roles = codes "writer" ∷ [] }

-- Two policies: their text is the role that they ask for.
abbrev roles_only : Runtime
roles_only = record {
  compile_or_get =
      λ id text. some (λ inputs. returned (any_bool (principal_role_impl inputs.principal text)));
}

abbrev polaris : CatalogAdapter
polaris = record { load_table = λ ref. ok orders; commit_table = λ ref commit. ok result }

abbrev asks : Bytes → Policy
asks role = record { id = role; kind = codes "write_acl"; text = role }

abbrev deps : List Policy → GatewayDeps Bytes
deps policies = record {
  catalog_credentials = λ tid nickname. ok nickname;
  adapter_factory = λ row. some polaris;
  stores = record { partition_spec_store = none; write_conflict_store = none };
  load_policies_for_table = λ ref. some policies;
  evaluator = roles_only;
  audit_fails = λ e. false;
}

abbrev post : CommitHttp
post = record {
  is_post = true;
  tenant = some (codes "acme");
  prefix = codes "main";
  path_namespace = codes "shop";
  path_table = codes "orders";
  user_agent = codes "Trino/440";
  principal = some ada;
  body = some request;
}

abbrev ref : TableRef
ref = record { namespace = codes "shop" ∷ []; name = codes "orders" }

commits :
    (commit_handler (deps (asks (codes "writer") ∷ [])) post).events
    ≡ committed ref request none ∷ audit_approved ref ∷ ingested result ∷ []
unfolding commit_handler principal_role_impl
commits = refl

denied :
    (commit_handler (deps (asks (codes "writer") ∷ asks (codes "owner") ∷ [])) post).events
    ≡ audit_rejected ref (codes "owner") ∷ []
unfolding commit_handler principal_role_impl
denied = refl

trino_kind : detect_engine_kind (codes "Trino/440") ≡ codes "trino"
unfolding detect_engine_kind
trino_kind = refl

-- A role that is no text counts as the empty role.
abbrev odd_roles : Fields
odd_roles = field (codes "roles") (any_slice (item (any_bool true) no_items)) no_fields

empty_role : principal_role_impl odd_roles [] ≡ true
unfolding principal_role_impl
empty_role = refl

commit_handler-LetThrough_example :
    (has_commit (commit_handler (deps (asks (codes "writer") ∷ [])) post).events ≡ true)
    ↔ LetThrough (deps (asks (codes "writer") ∷ [])) post
commit_handler-LetThrough_example =
    commit_handler-LetThrough (deps (asks (codes "writer") ∷ [])) post

abbrev change : Bytes → TableChange
change table = record {
  identifier = record { namespace = codes "shop" ∷ []; name = table };
  requirements = [];
  updates = [];
}

abbrev transaction : MultiTableHttp
transaction = record {
  is_post = true;
  tenant = some (codes "acme");
  prefix = codes "main";
  principal = some ada;
  table_changes = some (change (codes "orders") ∷ change (codes "lines") ∷ []);
}

transaction_denied :
    (multi_table_commit_handler (deps (asks (codes "owner") ∷ [])) transaction).events
    ≡ audit_rejected ref (codes "owner") ∷ []
unfolding multi_table_commit_handler principal_role_impl
transaction_denied = refl

-- A store whose active spec is not that of the table.
abbrev other_spec : GatewayDeps Bytes
other_spec = record (deps []) {
  stores = record {
    partition_spec_store = some (λ ref. ok (some (record { spec_id = pos 2; fields = [] })));
    write_conflict_store = none;
  };
}

mismatch_refused : (commit_handler other_spec post).status ≡ 403
unfolding commit_handler detect_engine_kind
mismatch_refused = refl

mismatch_in_transaction : (multi_table_commit_handler other_spec transaction).status ≡ 200
unfolding multi_table_commit_handler
mismatch_in_transaction = refl

multi_table_commit_handler-AllLetThrough_example :
    (has_commit (multi_table_commit_handler (deps []) transaction).events ≡ true)
    ↔ AllLetThrough (deps []) transaction
multi_table_commit_handler-AllLetThrough_example =
    multi_table_commit_handler-AllLetThrough (deps []) transaction

abbrev exactly : Bytes → Option (Bytes → Bool)
exactly pattern = some (same pattern)

-- A resolver that gives back the subject.
abbrev subject_only : Resolver
subject_only sub name claims = sub

gateway_unseen_example :
    (classification_satisfied_impl exactly (table_metadata_to_map orders) (codes "id") (codes "pii")
      ≡ false)
    × (location_region_impl (commit_request_to_map request) ≡ [])
    × (partition_spec_impl (table_metadata_to_map orders) ≡ [])
    × (principal_attribute_eval (some subject_only) (principal_to_map ada) (codes "region")
        ≡ codes "ada")
    × (principal_attribute_eval none (principal_to_map ada) (codes "region") ≡ [])
gateway_unseen_example =
    gateway_unseen exactly orders request ada (codes "id") (codes "pii") (codes "region")
      subject_only

-- With claims, the resolver is given them.
claims_reach :
    principal_attribute_eval
      (some (λ sub name claims. elim claims [ [] ↦ [] | ◌∷◌ c rest ↦ c.1 ]))
      (field
        (codes "claims")
        (any_map (field (codes "region") (any_string (codes "eu")) no_fields))
        no_fields)
      (codes "region")
    ≡ codes "eu"
unfolding principal_attribute_eval
claims_reach = refl

has_column_at_commit_example :
    has_column_impl (table_metadata_to_map orders) (codes "id")
    ≡ has_name (codes "id") orders.schema
has_column_at_commit_example = has_column_at_commit orders (codes "id")

has_column_impl-HasColumn_example :
    (has_column_impl (table_metadata_to_map orders) (codes "id") ≡ true)
    ↔ HasColumn (table_metadata_to_map orders) (codes "id")
has_column_impl-HasColumn_example =
    has_column_impl-HasColumn (table_metadata_to_map orders) (codes "id") refl

abbrev named : Bytes → Any
named n = any_map (field (codes "name") (any_string n) no_fields)

abbrev tagged : Fields
tagged =
    field (codes "columns")
      (any_slice (item (named (codes "ssn")) (item (named (codes "id")) no_items)))
      (field (codes "classifications")
        (any_slice (
          item
            (any_map (
              field (codes "column_name") (any_string (codes "ssn"))
                (field (codes "tag") (any_string (codes "pii")) no_fields)))
            no_items))
        no_fields)

satisfied : classification_satisfied_impl exactly tagged (codes "ssn") (codes "pii") ≡ true
unfolding classification_satisfied_impl
satisfied = refl

unsatisfied : classification_satisfied_impl exactly tagged (codes "id") (codes "pii") ≡ false
unfolding classification_satisfied_impl
unsatisfied = refl

classification_satisfied_impl-Satisfied_example :
    (classification_satisfied_impl exactly tagged (codes "ssn") (codes "pii") ≡ true)
    ↔ Satisfied exactly tagged (codes "ssn") (codes "pii")
classification_satisfied_impl-Satisfied_example =
    classification_satisfied_impl-Satisfied exactly tagged (codes "ssn") (codes "pii")
