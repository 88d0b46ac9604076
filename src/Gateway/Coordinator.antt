-- ===== src/Gateway/Coordinator.antt =====
-- internal/gateway/iceberg/writecoordinator.go. The two stores are arguments; a nil store is `none`.
use neksur.Prelude.{
  ℕ, Bool, true, false, not, ◌&&◌, ◌||◌, Option, none, some, [], ◌∷◌, if◌then◌else◌, ◌==◌, leb,
  Bytes, codes, same, strip_prefix, Result, ok, err, ◌+◌,
}
use neksur.Cel.Value.{ℤ, pos, negsuc}
use neksur.Iceberg.Catalog.{TableRef, PartitionSpec, TableMetadata}

pub record Stores : Type 0 where
  -- `LoadActive`: an error, no active spec, or one
  pub partition_spec_store : Option (TableRef → Result Unit (Option PartitionSpec))
  pub write_conflict_store : Option (TableRef → Result Unit Bytes)

pub data CoordinatorError : Type 0 where
  partition_spec_mismatch : CoordinatorError
  store_failed : CoordinatorError

abbrev lower : ℕ → ℕ
lower c = if leb b'A' c && leb c b'Z' then c + 32 else c

-- `strings.ToLower`, of an ASCII text.
abbrev to_lower : Bytes → Bytes
to_lower [] = []
to_lower (c ∷ s) = lower c ∷ to_lower s

abbrev is_some : Option Bytes → Bool
is_some none = false
is_some (some _) = true

-- `strings.Contains`
unfoldable pub contains : Bytes → Bytes → Bool
unfolding strip_prefix
contains [] w = is_some (strip_prefix w [])
contains (c ∷ s) w = is_some (strip_prefix w (c ∷ s)) || contains s w

-- `detectEngineKind`, of the User-Agent header.
unfoldable pub detect_engine_kind : Bytes → Bytes
unfolding contains
detect_engine_kind header =
    if contains (to_lower header) (codes "trino")
    then codes "trino"
    else if contains (to_lower header) (codes "dremio")
    then codes "dremio"
    else if contains (to_lower header) (codes "iceberg-spark")
        || contains (to_lower header) (codes "spark")
    then codes "spark"
    else []

abbrev same_int : ℤ → ℤ → Bool
same_int (pos m) (pos n) = m == n
same_int (negsuc m) (negsuc n) = m == n
same_int _ _ = false

unfoldable pub spec_matches : PartitionSpec → Option PartitionSpec → Bool
spec_matches commit none = true
spec_matches commit (some active) =
    same_int active.spec_id (pos 0) || same_int commit.spec_id active.spec_id

-- The conflict policy that the context carries from there on: `none` if none is attached.
unfoldable pub conflict_policy : Stores → TableRef → Result CoordinatorError (Option Bytes)
conflict_policy stores ref = elim stores.write_conflict_store [
  | none ↦ ok none
  | some load_for_table ↦ elim (load_for_table ref) [
    | err _ ↦ err store_failed
    | ok policy ↦ ok (some policy)
  ]
]

-- The request itself is not an argument: the code does not read it.
unfoldable pub write_coordinator_pre_commit :
    Stores → Bytes → TableRef → TableMetadata → Result CoordinatorError (Option Bytes)
unfolding spec_matches conflict_policy
write_coordinator_pre_commit stores engine_kind ref current =
    if not (same engine_kind (codes "trino")) && not (same engine_kind (codes "dremio"))
    then ok none
    else elim stores.partition_spec_store [
      | none ↦ conflict_policy stores ref
      | some load_active ↦ elim (load_active ref) [
        | err _ ↦ err store_failed
        | ok active ↦
            if spec_matches current.partition_spec active
            then conflict_policy stores ref
            else err partition_spec_mismatch
      ]
    ]
