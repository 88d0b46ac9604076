-- ===== src/Tests/ClosedRuns.antt =====
-- internal/sqlproxy, from a request to its status.
use neksur.Prelude.{◌≡◌, refl, Option, none, some, [], ◌∷◌, Bytes, codes, ok}
use neksur.Inject.Model.{Deps, status_active, status_divergent_suspended}
use neksur.Inject.Rows.{is_suspended}
use neksur.Proxy.Handler.{HttpRequest, SqlRequest, is_identifier, handle_inject}
use neksur.Proxy.Build.{build_injector}
use neksur.Proxy.Closed.{trino_suspended_503}
use neksur.Tests.InjectRuns.{ListCache, deps_of, sample_row}

abbrev trino : Bytes
trino = codes "trino"

abbrev two_rows : Deps ListCache
two_rows = deps_of none (
    some (
      sample_row trino status_active (codes "r = 1")
      ∷ sample_row trino status_divergent_suspended (codes "r = 1")
      ∷ []))

abbrev decoded : Bytes → Option SqlRequest
decoded body =
    some
      (record { sql = body; table = record { namespace = codes "sales"; name = codes "orders" } })

abbrev request : HttpRequest
request = record {
  tenant = some (codes "t1");
  path_engine = trino;
  path_prefix = codes "main";
  raw_body = ok (codes "SELECT a FROM orders");
}

trino_suspended_503_example :
    (handle_inject decoded (build_injector two_rows) request []).status ≡ 503
unfolding is_identifier is_suspended
trino_suspended_503_example =
    trino_suspended_503 two_rows decoded request []
      (sample_row trino status_active (codes "r = 1") ∷ [])
      (sample_row trino status_divergent_suspended (codes "r = 1")) [] refl refl refl refl refl refl
      refl refl refl
