-- ===== src/Inject/Fresh.antt =====
-- Requests that the artifact cache does not answer (internal/sqlproxy/dialect).
use neksur.Prelude.{
  ◌≡◌, refl, Bool, true, false, Option, none, some, List, Bytes, codes, Result, ok, err, Bool-cases,
  Option-cases, inl, inr,
}
use neksur.Splice.Rewrite.{pin_dialect_trino}
use neksur.Inject.Model.{
  CompiledPolicy, TableRef, CacheKey, CacheStatus, ArtifactEntry, Deps, Response, InjectError,
  policy_engine_unavailable, status_miss, status_error, failed, spliced, respond, settle, entry_of,
  key_for,
}
use neksur.Inject.Rows.{is_suspended, is_eligible, any_suspended, first_eligible, pinned_query}
use neksur.Inject.Verdict.{
  IsFirst, passed, cut, IsAny, nowhere, somewhere, first_eligible-IsFirst, any_suspended-IsAny,
  Verdict, closed_by_suspension, closed_by_default, enforced,
}
use neksur.Inject.Trino
use neksur.Inject.Spark

result-settle :
    {Cache : Type 0} (status : CacheStatus) (c : Cache) (r : Result InjectError Bytes)
    → (settle status c r).result ≡ r
result-settle status c (ok text) = refl
result-settle status c (err f) = refl

pub result-respond :
    {Cache : Type 0} (status : CacheStatus) (query : Bytes) (e : ArtifactEntry) (c : Cache)
    → (respond status query e c).result ≡ spliced query e
unfolding respond
result-respond status query e c = result-settle status c (spliced query e)

-- What is left of a request once both loops are done: whether a row is suspended, and the row to
-- enforce.
abbrev pub outcome : Bytes → Bool → Option CompiledPolicy → Result InjectError Bytes
outcome query true o = err policy_engine_unavailable
outcome query false none = err policy_engine_unavailable
outcome query false (some row) = spliced query (entry_of row)

pub outcome-Verdict :
    {engine query : Bytes} {rows : List CompiledPolicy} (b : Bool) (o : Option CompiledPolicy)
    → IsAny (is_suspended engine) rows b
    → IsFirst (is_eligible engine) rows o
    → Verdict engine query rows (outcome query b o)
outcome-Verdict true o (somewhere before row after q k) f =
    closed_by_suspension before row after q k
outcome-Verdict false none (nowhere u) (passed h) = closed_by_default h
outcome-Verdict false (some r) (nowhere u) (cut before row after q h k) =
    enforced u before row after q h k

-- The row at which the second loop returns, after a first loop that found nothing.
abbrev pub serve_first :
    {Cache : Type 0}
    → Deps Cache
    → CacheKey
    → Bytes
    → Bool
    → Option CompiledPolicy
    → Cache
    → Response Cache
serve_first deps key query true o c = failed status_error policy_engine_unavailable c
serve_first deps key query false none c = failed status_miss policy_engine_unavailable c
serve_first deps key query false (some row) c =
    respond status_miss query (entry_of row) (deps.add key (entry_of row) c)

result-serve_first :
    {Cache : Type 0} (deps : Deps Cache) (key : CacheKey) (query : Bytes) (b : Bool)
    (o : Option CompiledPolicy) (c : Cache)
    → (serve_first deps key query b o c).result ≡ outcome query b o
result-serve_first deps key query true o c = refl
result-serve_first deps key query false none c = refl
result-serve_first deps key query false (some row) c =
    result-respond status_miss query (entry_of row) (deps.add key (entry_of row) c)

module _ {Cache : Type 0} (deps : Deps Cache) (key : CacheKey) (query : Bytes)
    (rows : List CompiledPolicy) (c : Cache) where
  trino_rows :
      Trino.serve_rows deps key query rows c
      ≡ serve_first deps key query
          (any_suspended (codes "trino") rows)
          (first_eligible (codes "trino") rows)
          c
  unfolding Trino.serve_rows
  trino_rows = elim (Bool-cases (any_suspended (codes "trino") rows)) [
    | inl e ↦ rw (Trino.serve_rows, e) refl
    | inr e ↦ elim (Option-cases (first_eligible (codes "trino") rows)) [
      | inl f ↦ rw (Trino.serve_rows, e, f) refl
      | inr (row, f) ↦ rw (Trino.serve_rows, e, f) refl
    ]
  ]

  pub spark_rows :
      Spark.serve_rows deps key query rows c
      ≡ serve_first deps key query
          (any_suspended (codes "spark") rows)
          (first_eligible (codes "spark") rows)
          c
  unfolding Spark.serve_rows
  spark_rows = elim (Bool-cases (any_suspended (codes "spark") rows)) [
    | inl e ↦ rw (Spark.serve_rows, e) refl
    | inr e ↦ elim (Option-cases (first_eligible (codes "spark") rows)) [
      | inl f ↦ rw (Spark.serve_rows, e, f) refl
      | inr (row, f) ↦ rw (Spark.serve_rows, e, f) refl
    ]
  ]

rows-Verdict :
    {Cache : Type 0} (deps : Deps Cache) (key : CacheKey) (engine query : Bytes)
    (rows : List CompiledPolicy) (c : Cache)
    → Verdict engine query rows
        (serve_first deps key query
          (any_suspended engine rows)
          (first_eligible engine rows)
          c).result
rows-Verdict deps key engine query rows c =
    rw
      (result-serve_first deps key query (any_suspended engine rows) (first_eligible engine rows) c)
      (outcome-Verdict (any_suspended engine rows) (first_eligible engine rows)
        (any_suspended-IsAny engine rows) (first_eligible-IsFirst engine rows))

module _ {Cache : Type 0} (deps : Deps Cache) (tid query : Bytes) (table : TableRef)
    (cache : Cache) where
  pub trino_miss_result :
      {pinned : Bytes} {rows : List CompiledPolicy}
      → pinned_query deps pin_dialect_trino table query ≡ ok pinned
      → (deps.get (key_for (codes "trino") tid table) cache).0 ≡ none
      → deps.load table ≡ some rows
      → (Trino.inject_policy deps (some tid) query table cache).result
        ≡ outcome pinned (any_suspended (codes "trino") rows) (first_eligible (codes "trino") rows)
  unfolding Trino.inject_policy
  trino_miss_result {pinned} {rows} hp hg hl =
      let c = (deps.get (key_for (codes "trino") tid table) cache).1 in
      rw
        (
          Trino.inject_policy,
          hp,
          Trino.look_up,
          hg,
          hl,
          trino_rows deps (key_for (codes "trino") tid table) pinned rows c,
        )
        (result-serve_first deps (key_for (codes "trino") tid table) pinned
          (any_suspended (codes "trino") rows) (first_eligible (codes "trino") rows) c)

  -- A request to Trino that the cache misses and whose rows are loaded, behind its pin: if a row of
  -- Trino is suspended, at whatever place, the answer is that the policy engine is unavailable; else
  -- it is the splice of the first row that is of Trino, active and no predicate; else unavailable.
  pub trino_miss-Verdict :
      {pinned : Bytes} {rows : List CompiledPolicy}
      → pinned_query deps pin_dialect_trino table query ≡ ok pinned
      → (deps.get (key_for (codes "trino") tid table) cache).0 ≡ none
      → deps.load table ≡ some rows
      → Verdict
          (codes "trino")
          pinned
          rows
          (Trino.inject_policy deps (some tid) query table cache).result
  unfolding Trino.inject_policy
  trino_miss-Verdict {pinned} {rows} hp hg hl = rw (trino_miss_result hp hg hl) (
      outcome-Verdict (any_suspended (codes "trino") rows) (first_eligible (codes "trino") rows)
        (any_suspended-IsAny (codes "trino") rows) (first_eligible-IsFirst (codes "trino") rows))

  -- A request to Spark that the cache misses and whose rows are loaded: if a row of Spark is
  -- suspended, at whatever place, the answer is that the policy engine is unavailable; else it is
  -- the splice of the first row that is of Spark, active and no predicate; else unavailable.
  pub spark_miss-Verdict :
      {rows : List CompiledPolicy}
      → (deps.get (key_for (codes "spark") tid table) cache).0 ≡ none
      → deps.load table ≡ some rows
      → Verdict
          (codes "spark")
          query
          rows
          (Spark.inject_policy deps (some tid) query table cache).result
  unfolding Spark.inject_policy
  spark_miss-Verdict {rows} hg hl =
      rw
        (
          Spark.inject_policy,
          Spark.look_up,
          hg,
          hl,
          spark_rows deps (key_for (codes "spark") tid table) query rows
              (deps.get (key_for (codes "spark") tid table) cache).1,
        )
        (rows-Verdict deps (key_for (codes "spark") tid table) (codes "spark") query rows
          (deps.get (key_for (codes "spark") tid table) cache).1)
