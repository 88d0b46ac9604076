-- ===== src/Inject/Dremio.antt =====
-- `InjectPolicy` of internal/sqlproxy/dialect/dremio.go. The tenant is what `tenant.IDFromContext` finds.
use neksur.Prelude.{[], ◌∷◌, Option, none, some, List, if◌then◌else◌, Bytes, codes, ok, err}
use neksur.Splice.Rewrite.{pin_dialect_dremio}
use neksur.Inject.Model.{
  CompiledPolicy, TableRef, CacheKey, Deps, Response, policy_engine_unavailable, status_hit,
  status_miss, status_error, failed, respond, entry_of, key_for,
}
use neksur.Inject.Rows.{is_suspended, is_eligible, pinned_query}

pub data Choice : Type 0 where
  suspended nothing : Choice
  chosen : CompiledPolicy → Choice

-- The one loop: where it returns, it has looked at no later row.
unfoldable pub choose : List CompiledPolicy → Choice
unfolding is_suspended is_eligible
choose [] = nothing
choose (row ∷ rows) =
    if is_suspended (codes "dremio") row
    then suspended
    else if is_eligible (codes "dremio") row
    then chosen row
    else choose rows

-- Behind a load that succeeds.
unfoldable pub serve_rows :
    {Cache : Type 0} → Deps Cache → CacheKey → Bytes → List CompiledPolicy → Cache → Response Cache
unfolding choose respond
serve_rows deps key query rows c = elim (choose rows) [
  | suspended ↦ failed status_error policy_engine_unavailable c
  | nothing ↦ failed status_miss policy_engine_unavailable c
  | chosen row ↦ respond status_miss query (entry_of row) (deps.add key (entry_of row) c)
]

-- Behind the pin: the cache, then the store.
unfoldable pub look_up :
    {Cache : Type 0} → Deps Cache → CacheKey → TableRef → Bytes → Cache → Response Cache
unfolding serve_rows respond
look_up deps key table query cache =
    let (entry, c) = deps.get key cache in
    elim entry [
      | some e ↦ respond status_hit query e c
      | none ↦ elim (deps.load table) [
        | none ↦ failed status_error policy_engine_unavailable c
        | some rows ↦ serve_rows deps key query rows c
      ]
    ]

unfoldable pub inject_policy :
    {Cache : Type 0} → Deps Cache → Option Bytes → Bytes → TableRef → Cache → Response Cache
unfolding pinned_query look_up
inject_policy deps tenant query table cache = elim tenant [
  | none ↦ failed status_error policy_engine_unavailable cache
  | some tid ↦ elim (pinned_query deps pin_dialect_dremio table query) [
    | err e ↦ failed status_error e cache
    | ok pinned ↦ look_up deps (key_for (codes "dremio") tid table) table pinned cache
  ]
]
