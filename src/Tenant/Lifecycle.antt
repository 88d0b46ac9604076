-- ===== src/Tenant/Lifecycle.antt =====
-- internal/tenant/lifecycle.go. Which calls of the database fail is an argument; a transaction that
-- is not committed changes nothing.
use neksur.Prelude.{ℕ, suc, Bool, ◌&&◌, List, [], ◌∷◌, if◌then◌else◌, ◌==◌, Bytes, codes, same}
use neksur.Tenant.Rows.{
  TenantRow, Db, Outcome, done, tenant_not_found, not_confirmed, db_failed, active, suspended,
  wind_down, deleted, is_one_of, schema_name,
}

pub record TxFaults : Type 0 where
  pub at_begin : Bool
  pub at_update : Bool
  pub at_audit : Bool
  pub at_commit : Bool

pub record DropFaults : Type 0 where
  pub at_drop_begin : Bool
  pub at_load : Bool
  pub at_search_path : Bool
  -- an error of drop_graph other than that the graph does not exist
  pub at_drop_graph : Bool
  pub at_drop_commit : Bool

-- WHERE id = $1 AND lifecycle_state = ANY($3)
unfoldable pub is_target : Bytes → List Bytes → TenantRow → Bool
is_target id from_states r = same r.id id && is_one_of r.lifecycle_state from_states

unfoldable pub move_rows : Bytes → Bytes → List Bytes → List TenantRow → List TenantRow
unfolding is_target
move_rows id new_state from_states [] = []
move_rows id new_state from_states (r ∷ rs) =
    (if is_target id from_states r then record r { lifecycle_state = new_state } else r)
    ∷ move_rows id new_state from_states rs

-- RowsAffected
unfoldable pub rows_affected : Bytes → List Bytes → List TenantRow → ℕ
unfolding is_target
rows_affected id from_states [] = 0
rows_affected id from_states (r ∷ rs) =
    let rest = rows_affected id from_states rs in
    if is_target id from_states r then suc rest else rest

unfoldable pub transition_lifecycle :
    TxFaults → Bytes → Bytes → List Bytes → Bytes → Bytes → Db → Outcome × Db
unfolding move_rows rows_affected
transition_lifecycle f id new_state from_states event_type actor db =
    if f.at_begin
    then (db_failed, db)
    else if f.at_update
    then (db_failed, db)
    else if rows_affected id from_states db.tenants == 0
    then (tenant_not_found, db)
    else if f.at_audit
    then (db_failed, db)
    else if f.at_commit
    then (db_failed, db)
    else (
      done,
      record db {
        tenants = move_rows id new_state from_states db.tenants;
        audit_log =
            record {
              actor = actor;
              target = id;
              event_type = event_type;
              new_state = new_state;
              from_states = from_states;
            }
            ∷ db.audit_log;
      },
    )

unfoldable pub suspend : TxFaults → Bytes → Bytes → Db → Outcome × Db
unfolding transition_lifecycle
suspend f id actor db =
    transition_lifecycle f id suspended (active ∷ []) (codes "tenant.suspended") actor db

unfoldable pub begin_wind_down : TxFaults → Bytes → Bytes → Db → Outcome × Db
unfolding transition_lifecycle
begin_wind_down f id actor db =
    transition_lifecycle f id wind_down (active ∷ suspended ∷ []) (codes "tenant.wind_down") actor
      db

abbrev without : Bytes → List Bytes → List Bytes
without g [] = []
without g (h ∷ hs) = let rest = without g hs in if same h g then rest else h ∷ rest

-- Step 2 of `Delete`.
unfoldable pub drop_schema : DropFaults → Bytes → Db → Outcome × Db
unfolding schema_name
drop_schema d id db =
    if d.at_drop_begin
    then (db_failed, db)
    else if d.at_load
    then (db_failed, db)
    else if d.at_search_path
    then (db_failed, db)
    else if d.at_drop_graph
    then (db_failed, db)
    else if d.at_drop_commit
    then (db_failed, db)
    else (done, record db { graphs = without (schema_name id) db.graphs })

-- Step 2 runs only if step 1 is done.
abbrev pub then_drop : DropFaults → Bytes → Outcome × Db → Outcome × Db
then_drop d id (done, db) = drop_schema d id db
then_drop d id (tenant_not_found, db) = (tenant_not_found, db)
then_drop d id (not_confirmed, db) = (not_confirmed, db)
then_drop d id (db_failed, db) = (db_failed, db)

unfoldable pub delete : TxFaults → DropFaults → Bytes → Bytes → Bool → Db → Outcome × Db
unfolding transition_lifecycle drop_schema
delete f d id actor confirm db =
    if confirm
    then then_drop d id (
        transition_lifecycle f id deleted (active ∷ suspended ∷ wind_down ∷ [])
          (codes "tenant.deleted") actor db)
    else (not_confirmed, db)
