-- ===== src/Tenant/Rows.antt =====
-- What internal/tenant/repo.go, lifecycle.go and pool_b_migrate.go keep in the database: the rows of
-- public.tenants with the constraints of migrations/postgres/V0041, the audit log, and the tenants'
-- graphs. Time stamps and connection strings are left out.
use neksur.Prelude.{
  ℕ, Bool, false, ◌&&◌, ◌||◌, none, some, List, [], ◌∷◌, ◌++◌, if◌then◌else◌, ◌==◌, Bytes, codes,
  same, is_empty, leb, not, all, strip_prefix,
}

pub record TenantRow : Type 0 where
  pub id : Bytes
  pub workos_org_id : Bytes
  pub lifecycle_state : Bytes
  pub pool : Bytes

pub record AuditRow : Type 0 where
  pub actor : Bytes
  pub target : Bytes
  pub event_type : Bytes
  pub new_state : Bytes
  pub from_states : List Bytes

pub record Db : Type 0 where
  pub tenants : List TenantRow
  pub audit_log : List AuditRow
  -- the schemas that hold a tenant's graph
  pub graphs : List Bytes

abbrev pub active : Bytes
active = codes "active"

abbrev pub suspended : Bytes
suspended = codes "suspended"

abbrev pub wind_down : Bytes
wind_down = codes "wind_down"

abbrev pub deleted : Bytes
deleted = codes "deleted"

abbrev pub is_one_of : Bytes → List Bytes → Bool
is_one_of s [] = false
is_one_of s (x ∷ xs) = same s x || is_one_of s xs

-- The CHECK constraint on lifecycle_state.
abbrev pub lifecycle_states : List Bytes
lifecycle_states = active ∷ suspended ∷ wind_down ∷ deleted ∷ []

abbrev pub pools : List Bytes
pools = codes "A" ∷ codes "B" ∷ []

-- The outcome of a call: `db_failed` is any error of the database.
pub data Outcome : Type 0 where
  done tenant_not_found not_confirmed db_failed : Outcome

abbrev replace_dash : ℕ → ℕ
replace_dash c = if c == b'-' then b'_' else c

abbrev replace_dashes : Bytes → Bytes
replace_dashes [] = []
replace_dashes (c ∷ s) = replace_dash c ∷ replace_dashes s

-- `SchemaName`, of an identifier in its text form.
unfoldable pub schema_name : Bytes → Bytes
schema_name id = codes "tenant_" ++ replace_dashes id

abbrev pub has_id : Bytes → List TenantRow → Bool
has_id id [] = false
has_id id (r ∷ rs) = same r.id id || has_id id rs

abbrev pub has_org : Bytes → List TenantRow → Bool
has_org org [] = false
has_org org (r ∷ rs) = same r.workos_org_id org || has_org org rs

abbrev or_default : Bytes → Bytes → Bytes
or_default default s = if is_empty s then default else s

unfoldable pub with_defaults : TenantRow → TenantRow
with_defaults t = record t {
  lifecycle_state = or_default active t.lifecycle_state;
  pool = or_default (codes "A") t.pool;
}

-- INSERT ... ON CONFLICT (workos_org_id) DO NOTHING: a known organisation is no error and changes
-- nothing; a known identifier, or a state or a pool that the table's CHECK refuses, is an error.
unfoldable pub insert_checked : TenantRow → Db → Outcome × Db
insert_checked row db =
    if is_one_of row.lifecycle_state lifecycle_states
    then (if is_one_of row.pool pools
        then (if has_org row.workos_org_id db.tenants
            then (done, db)
            else if has_id row.id db.tenants
            then (db_failed, db)
            else (done, record db { tenants = row ∷ db.tenants }))
        else (db_failed, db))
    else (db_failed, db)

abbrev is_org_byte : ℕ → Bool
is_org_byte c = (leb b'A' c && leb c b'Z') || (leb b'0' c && leb c b'9')

-- The CHECK `^org_[A-Z0-9]+$` on workos_org_id.
unfoldable pub is_org_id : Bytes → Bool
unfolding strip_prefix
is_org_id s = elim (strip_prefix (codes "org_") s) [
  | none ↦ false
  | some w ↦ not (is_empty w) && all is_org_byte w
]

unfoldable pub insert_row : TenantRow → Db → Outcome × Db
unfolding insert_checked is_org_id
insert_row row db = if is_org_id row.workos_org_id then insert_checked row db else (db_failed, db)

-- `Create`, with the failures of the database as an argument.
unfoldable pub create : Bool → TenantRow → Db → Outcome × Db
unfolding with_defaults insert_row
create fails t db = if fails then (db_failed, db) else insert_row (with_defaults t) db

-- The UPDATE of `SetLifecycleState`, whatever the state before it.
unfoldable pub set_rows : Bytes → Bytes → List TenantRow → List TenantRow
set_rows id state [] = []
set_rows id state (r ∷ rs) =
    (if same r.id id then record r { lifecycle_state = state } else r) ∷ set_rows id state rs

unfoldable pub set_lifecycle_state : Bool → Bytes → Bytes → Db → Outcome × Db
unfolding set_rows
set_lifecycle_state fails id state db =
    if fails
    then (db_failed, db)
    else if not (has_id id db.tenants)
    then (tenant_not_found, db)
    else if not (is_one_of state lifecycle_states)
    then (db_failed, db)
    else (done, record db { tenants = set_rows id state db.tenants })

unfoldable pub set_pool : Bytes → Bytes → List TenantRow → List TenantRow
set_pool id pool [] = []
set_pool id pool (r ∷ rs) =
    (if same r.id id then record r { pool = pool } else r) ∷ set_pool id pool rs

-- `UpdatePoolAndDSN`; a pool that is neither A nor B is refused before the database is asked.
unfoldable pub update_pool_and_dsn : Bool → Bytes → Bytes → Db → Outcome × Db
unfolding set_pool
update_pool_and_dsn fails id pool db =
    if not (is_one_of pool pools) || fails
    then (db_failed, db)
    else if not (has_id id db.tenants)
    then (tenant_not_found, db)
    else (done, record db { tenants = set_pool id pool db.tenants })
