-- ===== src/Tests/TenantRuns.antt =====
-- internal/tenant/lifecycle.go, on a small database.
use neksur.Prelude.{◌≡◌, refl, true, false, some, [], ◌∷◌, Bytes, codes}
use neksur.Tenant.Rows.{set_lifecycle_state, Db, tenant_not_found, active, suspended, deleted}
use neksur.Tenant.Lifecycle.{TxFaults, DropFaults, suspend, delete, transition_lifecycle}
use neksur.Tenant.Moves.{state_of}
use neksur.Tenant.Effect.{Effect, transition_lifecycle-Effect}
use neksur.Tenant.Reach.{Reach, here, next, suspends, deletes}
use neksur.Tenant.Terminal.{IsSound, Reach-IsSound, Reach-deleted, delete_retry}

abbrev no_faults : TxFaults
no_faults = record { at_begin = false; at_update = false; at_audit = false; at_commit = false }

abbrev drop_works : DropFaults
drop_works = record {
  at_drop_begin = false;
  at_load = false;
  at_search_path = false;
  at_drop_graph = false;
  at_drop_commit = false;
}

abbrev drop_breaks : DropFaults
drop_breaks = record drop_works { at_drop_graph = true }

abbrev ada : Bytes
ada = codes "a-1"

abbrev root : Bytes
root = codes "root"

abbrev start : Db
start = record {
  tenants =
      record { id = ada; workos_org_id = codes "org_A"; lifecycle_state = active; pool = codes "A" }
      ∷ record {
        id = codes "b-2";
        workos_org_id = codes "org_B";
        lifecycle_state = active;
        pool = codes "B";
      }
      ∷ [];
  audit_log = [];
  graphs = codes "tenant_a_1" ∷ codes "tenant_b_2" ∷ [];
}

abbrev after_failed_drop : Db
after_failed_drop = (delete no_faults drop_breaks ada root true start).1

delete_runs : (delete no_faults drop_works ada root true start).1.graphs ≡ codes "tenant_b_2" ∷ []
unfolding delete
delete_runs = refl

failed_drop_keeps : after_failed_drop.graphs ≡ codes "tenant_a_1" ∷ codes "tenant_b_2" ∷ []
unfolding delete
failed_drop_keeps = refl

retry_refused : (delete no_faults drop_works ada root true after_failed_drop).0 ≡ tenant_not_found
unfolding delete
retry_refused = refl

-- The last step of the move to another pool, for a tenant deleted meanwhile.
revived :
    state_of ada (set_lifecycle_state false ada active after_failed_drop).1.tenants ≡ some active
unfolding set_lifecycle_state delete
revived = refl

transition_lifecycle-Effect_example :
    Effect ada suspended (active ∷ []) (codes "tenant.suspended") root start (
      transition_lifecycle no_faults ada suspended
        (active ∷ [])
        (codes "tenant.suspended")
        root
        start)
transition_lifecycle-Effect_example =
    transition_lifecycle-Effect no_faults ada suspended (active ∷ []) (codes "tenant.suspended")
      root start (refl, (refl, tt))

suspended_then_deleted :
    Reach start (delete no_faults drop_works ada root true (suspend no_faults ada root start).1).1
suspended_then_deleted =
    next (next here (suspends no_faults ada root refl))
      (deletes no_faults drop_works ada root true refl)

Reach-IsSound_example :
    IsSound
      (delete no_faults drop_works ada root true (suspend no_faults ada root start).1).1.tenants
Reach-IsSound_example = Reach-IsSound {s = start} ((refl, (refl, tt)), refl) suspended_then_deleted

suspended_later : Reach after_failed_drop (suspend no_faults ada root after_failed_drop).1
suspended_later = next here (suspends no_faults ada root refl)

Reach-deleted_example :
    state_of ada (suspend no_faults ada root after_failed_drop).1.tenants ≡ some deleted
unfolding delete
Reach-deleted_example = Reach-deleted {s = after_failed_drop} ada refl suspended_later

delete_retry_example :
    (delete no_faults drop_works ada root true (suspend no_faults ada root after_failed_drop).1).1
    ≡ (suspend no_faults ada root after_failed_drop).1
unfolding delete
delete_retry_example =
    delete_retry {s = after_failed_drop} no_faults drop_works ada root true
      ((refl, (refl, tt)), refl) refl suspended_later
