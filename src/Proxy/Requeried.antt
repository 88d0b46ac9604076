-- ===== src/Proxy/Requeried.antt =====
-- Requests after an eviction: internal/sqlproxy/cache.go in front of internal/sqlproxy/dialect.
use neksur.Prelude.{◌≡◌, refl, true, false, Option, none, some, List, Bytes, codes, ok}
use neksur.Splice.Rewrite.{pin_dialect_trino, pin_dialect_dremio}
use neksur.Inject.Model.{CompiledPolicy, TableRef, CacheKey, ArtifactEntry, Deps, key_for}
use neksur.Inject.Rows.{pinned_query}
use neksur.Inject.Verdict.{Verdict}
use neksur.Inject.Fresh.{trino_miss-Verdict, spark_miss-Verdict}
use neksur.Inject.Order.{OrderedVerdict, dremio_miss-OrderedVerdict}
use neksur.Inject.Trino
use neksur.Inject.Spark
use neksur.Inject.Dremio
use neksur.Proxy.Eviction.{invalidate}
use neksur.Proxy.Evicted.{
  AfterEviction, evicted, kept_tenant, kept_table, same_key, has_key, look-invalidate,
}

gone :
    {tid table : Bytes} {k : CacheKey} {before after : Option ArtifactEntry}
    → AfterEviction tid table k before after
    → k.tenant_id ≡ tid
    → k.key_table ≡ table
    → after ≡ none
gone (evicted _ _ e) t n = e
gone (kept_tenant m _) t n = elim (m t) [ ]
gone (kept_table m _) t n = elim (m n) [ ]

module _ {Cache : Type 0} (deps : Deps Cache) (keys : Cache → List CacheKey)
    (remove : CacheKey → Cache → Cache)
    (keys_complete : (k : CacheKey) (c : Cache) (e : ArtifactEntry)
      → (deps.get k c).0 ≡ some e
      → has_key k (keys c) ≡ true)
    (remove_same : (k j : CacheKey) (c : Cache)
      → same_key k j ≡ true
      → (deps.get k (remove j c)).0 ≡ none)
    (remove_other : (k j : CacheKey) (c : Cache)
      → same_key k j ≡ false
      → (deps.get k (remove j c)).0 ≡ (deps.get k c).0) where
  misses :
      (engine tid : Bytes) (table : TableRef) (cache : Cache)
      → (deps.get (key_for engine tid table) (invalidate keys remove tid table.name cache)).0 ≡ none
  misses engine tid table cache =
      gone
        (look-invalidate (λ k c. (deps.get k c).0) keys remove keys_complete remove_same
          remove_other tid table.name (key_for engine tid table) cache)
        refl refl

  -- After a tenant's table is evicted, on a cache that lists, finds and removes its keys as
  -- documented, the next request for it is decided by the rows that the store has by then, whatever
  -- the cache held: for Trino and Spark a suspended row closes the table, for Dremio the first row
  -- that decides does.
  pub invalidate-Verdicts :
      (tid query : Bytes) (table : TableRef) (cache : Cache) {for_trino for_dremio : Bytes}
      {rows : List CompiledPolicy}
      → pinned_query deps pin_dialect_trino table query ≡ ok for_trino
      → pinned_query deps pin_dialect_dremio table query ≡ ok for_dremio
      → deps.load table ≡ some rows
      → Verdict
          (codes "trino")
          for_trino
          rows
          (Trino.inject_policy deps
            (some tid)
            query
            table
            (invalidate keys remove tid table.name cache)).result
        × Verdict
            (codes "spark")
            query
            rows
            (Spark.inject_policy deps
              (some tid)
              query
              table
              (invalidate keys remove tid table.name cache)).result
        × OrderedVerdict for_dremio rows
            (Dremio.inject_policy deps
              (some tid)
              query
              table
              (invalidate keys remove tid table.name cache)).result
  invalidate-Verdicts tid query table cache ht hd hl =
      let c = invalidate keys remove tid table.name cache in
      (
        trino_miss-Verdict deps tid query table c ht (misses (codes "trino") tid table cache) hl,
        spark_miss-Verdict deps tid query table c (misses (codes "spark") tid table cache) hl,
        dremio_miss-OrderedVerdict deps tid query table c hd
            (misses (codes "dremio") tid table cache) hl,
      )
