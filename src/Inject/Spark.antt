-- ===== src/Inject/Spark.antt =====
-- `InjectPolicy` of internal/sqlproxy/dialect/spark.go. The tenant is what `tenant.IDFromContext` finds.
use neksur.Prelude.{Option, none, some, List, if◌then◌else◌, Bytes, codes}
use neksur.Inject.Model.{
  CompiledPolicy, TableRef, CacheKey, Deps, Response, policy_engine_unavailable, status_hit,
  status_miss, status_error, failed, respond, entry_of, key_for,
}
use neksur.Inject.Rows.{any_suspended, first_eligible}

-- Behind a load that succeeds.
unfoldable pub serve_rows :
    {Cache : Type 0} → Deps Cache → CacheKey → Bytes → List CompiledPolicy → Cache → Response Cache
unfolding any_suspended first_eligible respond
serve_rows deps key query rows c =
    if any_suspended (codes "spark") rows
    then failed status_error policy_engine_unavailable c
    else (elim (first_eligible (codes "spark") rows) [
      | none ↦ failed status_miss policy_engine_unavailable c
      | some row ↦ respond status_miss query (entry_of row) (deps.add key (entry_of row) c)
    ])

-- Behind the pin: the cache, then the store.
unfoldable pub look_up :
    {Cache : Type 0} → Deps Cache → CacheKey → TableRef → Bytes → Cache → Response Cache
unfolding serve_rows respond
look_up deps key table query cache =
    let (entry, c) = deps.get key cache in
    elim entry [
      | some e ↦ respond status_hit query e c
      | none ↦ elim (deps.load table) [
        | none ↦ failed status_error policy_engine_unavailable c
        | some rows ↦ serve_rows deps key query rows c
      ]
    ]

unfoldable pub inject_policy :
    {Cache : Type 0} → Deps Cache → Option Bytes → Bytes → TableRef → Cache → Response Cache
unfolding look_up
inject_policy deps tenant query table cache = elim tenant [
  | none ↦ failed status_error policy_engine_unavailable cache
  | some tid ↦ look_up deps (key_for (codes "spark") tid table) table query cache
]
