-- ===== src/Tests/InjectRuns.antt =====
-- internal/sqlproxy/dialect, on concrete rows, caches and queries.
use neksur.Prelude.{
  ◌≡◌, refl, Bool, ◌&&◌, Option, none, some, List, [], ◌∷◌, if◌then◌else◌, Bytes, codes, same,
  same_refl, ok, err,
}
use neksur.Splice.Rewrite.{kind_row_filter}
use neksur.Splice.Scan.{unsupported_query_shape}
use neksur.Inject.Model.{
  CompiledPolicy, TableRef, CacheKey, ArtifactEntry, Deps, policy_engine_unavailable, splice_failed,
  status_active, status_divergent_suspended, spliced, entry_of, key_for,
}
use neksur.Inject.Rows.{any_suspended, first_eligible, pinned_query}
use neksur.Inject.Verdict.{Verdict}
use neksur.Inject.Fresh.{trino_miss-Verdict, spark_miss-Verdict}
use neksur.Inject.Order.{OrderedVerdict, dremio_miss-OrderedVerdict, dremio_later_rows}
use neksur.Inject.Cached.{spark_second_request}
use neksur.Inject.Trino
use neksur.Inject.Spark
use neksur.Inject.Dremio

abbrev pub ListCache : Type 0
ListCache = List (CacheKey × ArtifactEntry)

abbrev same_key : CacheKey → CacheKey → Bool
same_key a b =
    same a.tenant_id b.tenant_id
    && (same a.key_namespace b.key_namespace
        && (same a.key_table b.key_table && same a.engine b.engine))

abbrev find_entry : CacheKey → ListCache → Option ArtifactEntry
find_entry k [] = none
find_entry k ((k', e) ∷ c) = if same_key k k' then some e else find_entry k c

find_entry_added :
    (k : CacheKey) (e : ArtifactEntry) (c : ListCache) → find_entry k ((k, e) ∷ c) ≡ some e
find_entry_added k e c =
    rw (same_refl k.tenant_id, same_refl k.key_namespace, same_refl k.key_table, same_refl k.engine)
      refl

abbrev pub sample_row : Bytes → Bytes → Bytes → CompiledPolicy
sample_row engine status body = record {
  policy_id = codes "p1";
  engine_kind = engine;
  engine_version = codes "1";
  table_name = codes "orders";
  table_namespace = codes "sales";
  status = status;
  source_checksum = codes "c";
  artifact_body = body;
  artifact_kind = kind_row_filter;
}

abbrev orders : TableRef
orders = record { namespace = codes "sales"; name = codes "orders" }

abbrev pub deps_of :
    Option (TableRef → Option Bytes) → Option (List CompiledPolicy) → Deps ListCache
deps_of pins rows = record {
  get = λ k c. (find_entry k c, c);
  add = λ k e c. (k, e) ∷ c;
  load = λ t. rows;
  pin_store = pins;
}

abbrev pinned_at_7 : Option (TableRef → Option Bytes)
pinned_at_7 = some (λ t. some (codes "7"))

abbrev query : Bytes
query = codes "SELECT a FROM orders"

-- An active row, before a suspended one.
abbrev rows_for : Bytes → List CompiledPolicy
rows_for engine =
    sample_row engine status_active (codes "r = 1")
    ∷ sample_row engine status_divergent_suspended (codes "r = 1")
    ∷ []

abbrev active_for : Bytes → List CompiledPolicy
active_for engine = sample_row engine status_active (codes "r = 1") ∷ []

trino_closes :
    (Trino.inject_policy
      (deps_of none (some (rows_for (codes "trino"))))
      (some (codes "t1"))
      query
      orders
      []).result
    ≡ err policy_engine_unavailable
unfolding Trino.inject_policy
trino_closes = refl

-- The same rows, for Dremio, are served.
dremio_serves :
    (Dremio.inject_policy
      (deps_of none (some (rows_for (codes "dremio"))))
      (some (codes "t1"))
      query
      orders
      []).result
    ≡ ok (codes "SELECT a FROM orders WHERE (r = 1)")
unfolding Dremio.inject_policy
dremio_serves = refl

-- What the pin makes of the query is a shape that the splicer refuses.
trino_pinned_refused :
    (Trino.inject_policy
      (deps_of pinned_at_7 (some (active_for (codes "trino"))))
      (some (codes "t1"))
      query
      orders
      []).result
    ≡ err (splice_failed unsupported_query_shape)
unfolding Trino.inject_policy
trino_pinned_refused = refl

dremio_pinned_refused :
    (Dremio.inject_policy
      (deps_of pinned_at_7 (some (active_for (codes "dremio"))))
      (some (codes "t1"))
      query
      orders
      []).result
    ≡ err (splice_failed unsupported_query_shape)
unfolding Dremio.inject_policy
dremio_pinned_refused = refl

trino_miss-Verdict_example :
    Verdict
      (codes "trino")
      query
      (rows_for (codes "trino"))
      (Trino.inject_policy
        (deps_of none (some (rows_for (codes "trino"))))
        (some (codes "t1"))
        query
        orders
        []).result
unfolding pinned_query
trino_miss-Verdict_example =
    trino_miss-Verdict (deps_of none (some (rows_for (codes "trino")))) (codes "t1") query orders []
      refl refl refl

spark_miss-Verdict_example :
    Verdict
      (codes "spark")
      query
      (active_for (codes "spark"))
      (Spark.inject_policy
        (deps_of none (some (active_for (codes "spark"))))
        (some (codes "t1"))
        query
        orders
        []).result
spark_miss-Verdict_example =
    spark_miss-Verdict (deps_of none (some (active_for (codes "spark")))) (codes "t1") query orders
      [] refl refl

dremio_miss-OrderedVerdict_example :
    OrderedVerdict query
      (rows_for (codes "dremio"))
      (Dremio.inject_policy
        (deps_of none (some (rows_for (codes "dremio"))))
        (some (codes "t1"))
        query
        orders
        []).result
unfolding pinned_query
dremio_miss-OrderedVerdict_example =
    dremio_miss-OrderedVerdict (deps_of none (some (rows_for (codes "dremio")))) (codes "t1") query
      orders [] refl refl refl

dremio_later_rows_example :
    (Dremio.inject_policy
      (deps_of none (some (rows_for (codes "dremio"))))
      (some (codes "t1"))
      query
      orders
      []).result
    ≡ spliced query (entry_of (sample_row (codes "dremio") status_active (codes "r = 1")))
unfolding pinned_query Dremio.choose
dremio_later_rows_example =
    dremio_later_rows (deps_of none (some (rows_for (codes "dremio")))) (codes "t1") query orders []
      (active_for (codes "dremio"))
      (sample_row (codes "dremio") status_divergent_suspended (codes "r = 1") ∷ []) refl refl refl
      refl

abbrev trino_cache : ListCache
trino_cache =
    (
      key_for (codes "trino") (codes "t1") orders,
      record { body = codes "r = 2"; kind = kind_row_filter },
    )
    ∷ []

-- A cached artifact is served although a row of the store is suspended.
trino_hit_serves :
    (Trino.inject_policy
      (deps_of none (some (rows_for (codes "trino"))))
      (some (codes "t1"))
      query
      orders
      trino_cache).result
    ≡ ok (codes "SELECT a FROM orders WHERE (r = 2)")
unfolding Trino.inject_policy
trino_hit_serves = refl

abbrev no_rows : TableRef → Option (List CompiledPolicy)
no_rows t = none

spark_second_request_example :
    (Spark.inject_policy
      (record (deps_of none (some (active_for (codes "spark")))) { load = no_rows })
      (some (codes "t1"))
      query
      orders
      (Spark.inject_policy
        (deps_of none (some (active_for (codes "spark"))))
        (some (codes "t1"))
        query
        orders
        []).cache).result
    ≡ spliced query (entry_of (sample_row (codes "spark") status_active (codes "r = 1")))
unfolding any_suspended first_eligible
spark_second_request_example =
    spark_second_request (deps_of none (some (active_for (codes "spark")))) (codes "t1") orders
      find_entry_added no_rows query query [] refl refl refl refl
