-- ===== src/Inject/Cached.antt =====
-- Requests that the artifact cache answers (internal/sqlproxy/dialect/spark.go).
use neksur.Prelude.{◌≡◌, refl, false, Option, none, some, List, Bytes, codes, Result, ok, err}
use neksur.Inject.Model.{
  CompiledPolicy, TableRef, CacheKey, CacheStatus, ArtifactEntry, Deps, InjectError, status_hit,
  status_miss, settle, spliced, respond, entry_of, key_for,
}
use neksur.Inject.Rows.{any_suspended, first_eligible}
use neksur.Inject.Fresh.{result-respond, spark_rows}
use neksur.Inject.Spark

cache-settle :
    {Cache : Type 0} (status : CacheStatus) (c : Cache) (r : Result InjectError Bytes)
    → (settle status c r).cache ≡ c
cache-settle status c (ok text) = refl
cache-settle status c (err f) = refl

cache-respond :
    {Cache : Type 0} (status : CacheStatus) (query : Bytes) (e : ArtifactEntry) (c : Cache)
    → (respond status query e c).cache ≡ c
unfolding respond
cache-respond status query e c = cache-settle status c (spliced query e)

module _ {Cache : Type 0} (deps : Deps Cache) (tid : Bytes) (table : TableRef) where
  spark_hit :
      (query : Bytes) (cache : Cache) {e : ArtifactEntry}
      → (deps.get (key_for (codes "spark") tid table) cache).0 ≡ some e
      → (Spark.inject_policy deps (some tid) query table cache).result ≡ spliced query e
  unfolding Spark.inject_policy
  spark_hit query cache {e} hg =
      rw (Spark.inject_policy, Spark.look_up, hg)
        (result-respond status_hit query e (deps.get (key_for (codes "spark") tid table) cache).1)

  spark_miss_cache :
      (query : Bytes) (cache : Cache) {rows : List CompiledPolicy} {row : CompiledPolicy}
      → (deps.get (key_for (codes "spark") tid table) cache).0 ≡ none
      → deps.load table ≡ some rows
      → any_suspended (codes "spark") rows ≡ false
      → first_eligible (codes "spark") rows ≡ some row
      → (Spark.inject_policy deps (some tid) query table cache).cache
        ≡ deps.add
            (key_for (codes "spark") tid table)
            (entry_of row)
            (deps.get (key_for (codes "spark") tid table) cache).1
  unfolding Spark.inject_policy
  spark_miss_cache query cache {rows} {row} hg hl hs hf =
      rw
        (
          Spark.inject_policy,
          Spark.look_up,
          hg,
          hl,
          spark_rows deps (key_for (codes "spark") tid table) query rows
              (deps.get (key_for (codes "spark") tid table) cache).1,
          hs,
          hf,
        )
        (cache-respond status_miss query (entry_of row) (
          deps.add (key_for (codes "spark") tid table) (entry_of row)
            (deps.get (key_for (codes "spark") tid table) cache).1))

-- After a request to Spark that was served from the store, with the cache law that what was added
-- last under a key is found there, the next request for the same tenant and table is spliced with
-- the row that the first one found, whatever the store answers by then: a row suspended meanwhile,
-- or a store that fails, does not close the table.
pub spark_second_request :
    {Cache : Type 0} (deps : Deps Cache) (tid : Bytes) (table : TableRef)
    → ((k : CacheKey) (e : ArtifactEntry) (c : Cache) → (deps.get k (deps.add k e c)).0 ≡ some e)
    → (load : TableRef → Option (List CompiledPolicy)) (first second : Bytes) (cache : Cache)
      {rows : List CompiledPolicy} {row : CompiledPolicy}
    → (deps.get (key_for (codes "spark") tid table) cache).0 ≡ none
    → deps.load table ≡ some rows
    → any_suspended (codes "spark") rows ≡ false
    → first_eligible (codes "spark") rows ≡ some row
    → (Spark.inject_policy
        (record deps { load = load })
        (some tid)
        second
        table
        (Spark.inject_policy deps (some tid) first table cache).cache).result
      ≡ spliced second (entry_of row)
spark_second_request deps tid table law load first second cache {rows} {row} hg hl hs hf =
    rw (spark_miss_cache deps tid table first cache hg hl hs hf) (
      spark_hit (record deps { load = load }) tid table second
        (deps.add (key_for (codes "spark") tid table) (entry_of row)
          (deps.get (key_for (codes "spark") tid table) cache).1)
        (law (key_for (codes "spark") tid table) (entry_of row)
          (deps.get (key_for (codes "spark") tid table) cache).1))
