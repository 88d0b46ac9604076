-- ===== src/Inject/Rows.antt =====
-- The loops over the compiled rows of a table that trino.go and spark.go share in wording, and the
-- rewrite for a pinned snapshot that trino.go and dremio.go share, in internal/sqlproxy/dialect.
use neksur.Prelude.{
  Bool, true, false, not, ◌&&◌, Option, none, some, List, [], ◌∷◌, if◌then◌else◌, Bytes, is_empty,
  same, Result, ok, err,
}
use neksur.Splice.Rewrite.{PinFromDialect, kind_predicate, rewrite_from_for_snapshot_pin}
use neksur.Inject.Model.{
  CompiledPolicy, TableRef, Deps, InjectError, policy_engine_unavailable, splice_failed,
  status_active, status_divergent_suspended,
}

-- A row of this engine that the verifier has suspended.
unfoldable pub is_suspended : Bytes → CompiledPolicy → Bool
is_suspended engine row = same row.engine_kind engine && same row.status status_divergent_suspended

-- A row that no `continue` passes over.
unfoldable pub is_eligible : Bytes → CompiledPolicy → Bool
is_eligible engine row =
    same row.engine_kind engine
    && same row.status status_active
    && not (same row.artifact_kind kind_predicate)

-- The first loop.
unfoldable pub any_suspended : Bytes → List CompiledPolicy → Bool
unfolding is_suspended
any_suspended engine [] = false
any_suspended engine (row ∷ rows) =
    if is_suspended engine row then true else any_suspended engine rows

-- The second loop: the row at which it returns.
unfoldable pub first_eligible : Bytes → List CompiledPolicy → Option CompiledPolicy
unfolding is_eligible
first_eligible engine [] = none
first_eligible engine (row ∷ rows) =
    if is_eligible engine row then some row else first_eligible engine rows

-- The query with its FROM clause set to the active pin, if there is a pin store and a pin.
unfoldable pub pinned_query :
    {Cache : Type 0} → Deps Cache → PinFromDialect → TableRef → Bytes → Result InjectError Bytes
unfolding rewrite_from_for_snapshot_pin
pinned_query deps dialect table query = elim deps.pin_store [
  | none ↦ ok query
  | some active_snapshot_id ↦ elim (active_snapshot_id table) [
    | none ↦ err policy_engine_unavailable
    | some id ↦
        if is_empty id then ok query else (elim (rewrite_from_for_snapshot_pin query id dialect) [
          | ok text ↦ ok text
          | err e ↦ err (splice_failed e)
        ])
  ]
]
