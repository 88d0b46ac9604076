-- ===== src/Compile/Probe.antt =====
-- `Run` of internal/policy/compiler/probe.go. An executor's `Submit` is a parameter: the number of
-- rows that a query gives, or none for an error, a timeout included.
use neksur.Prelude.{
  ℕ, Bool, true, false, Option, none, some, ◌++◌, ◌==◌, if◌then◌else◌, Bytes, codes, is_empty,
}

abbrev pub Executor : Type 0
Executor = Bytes → Option ℕ

unfoldable pub build_probe_query : Bytes → Bytes → Bytes
build_probe_query table_fqn row_filter =
    if is_empty row_filter
    then codes "SELECT 1 FROM " ++ (table_fqn ++ codes " WHERE 1=0")
    else codes "SELECT 1 FROM "
      ++ (table_fqn ++ (codes " WHERE (" ++ (row_filter ++ codes ") AND 1=0")))

-- `true` where `Run` gives no error; an engine without an executor is not probed.
unfoldable pub run_probe : (Bytes → Option Executor) → Bytes → Bytes → Bytes → Bool
unfolding build_probe_query
run_probe executors engine_kind table_fqn row_filter = elim (executors engine_kind) [
  | none ↦ true
  | some submit ↦ elim (submit (build_probe_query table_fqn row_filter)) [
    | none ↦ false
    | some rows ↦ rows == 0
  ]
]
