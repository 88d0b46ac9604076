-- ===== src/Tenant/Reach.antt =====
-- The calls of internal/tenant/lifecycle.go, with `Create` and `SetLifecycleState` of repo.go and
-- `UpdatePoolAndDSN` of pool_b_migrate.go beside it, as steps of the database.
use neksur.Prelude.{
  not, ◌||◌, ◌≡◌, ◌≢◌, some, refl, sym, Bool, true, false, List, [], ◌∷◌, ◌==◌, Bytes, codes, arith,
  subst, Bool-cases, inl, inr,
}
use neksur.Tenant.Rows.{
  TenantRow, Db, Outcome, done, tenant_not_found, not_confirmed, db_failed, active, suspended,
  wind_down, deleted, is_one_of, has_id, has_org, lifecycle_states, pools, with_defaults,
  insert_checked, is_org_id, insert_row, set_rows, set_lifecycle_state, pools, set_pool,
  update_pool_and_dsn, create,
}
use neksur.Tenant.Moves.{state_of}
use neksur.Tenant.Lifecycle.{
  TxFaults, DropFaults, move_rows, rows_affected, transition_lifecycle, suspend, begin_wind_down,
  drop_schema, then_drop, delete,
}

pub data Step (s t : Db) : Type 0 where
  creates : (fails : Bool) (row : TenantRow) → t ≡ (create fails row s).1 → Step s t
  suspends : (f : TxFaults) (id actor : Bytes) → t ≡ (suspend f id actor s).1 → Step s t
  winds_down : (f : TxFaults) (id actor : Bytes) → t ≡ (begin_wind_down f id actor s).1 → Step s t
  deletes :
      (f : TxFaults) (d : DropFaults) (id actor : Bytes) (confirm : Bool)
      → t ≡ (delete f d id actor confirm s).1
      → Step s t
  -- `SetLifecycleState`, for a tenant that is not deleted.
  sets :
      (fails : Bool) (id state : Bytes)
      → state_of id s.tenants ≢ some deleted
      → t ≡ (set_lifecycle_state fails id state s).1
      → Step s t
  moves_pool :
      (fails : Bool) (id pool : Bytes) → t ≡ (update_pool_and_dsn fails id pool s).1 → Step s t

pub data Reach (s : Db) : Db → Type 0 where
  here : Reach s s
  next : {t u : Db} → Reach s t → Step t u → Reach s u

tenants-drop_schema :
    (d : DropFaults) (id : Bytes) (s : Db) → (drop_schema d id s).1.tenants ≡ s.tenants
unfolding drop_schema
tenants-drop_schema d id s = ground arith

tenants-then_drop :
    (d : DropFaults) (id : Bytes) (o : Outcome × Db) → (then_drop d id o).1.tenants ≡ o.1.tenants
tenants-then_drop d id (done, s) = tenants-drop_schema d id s
tenants-then_drop d id (tenant_not_found, s) = refl
tenants-then_drop d id (not_confirmed, s) = refl
tenants-then_drop d id (db_failed, s) = refl

-- A property of the rows that each call keeps, if an UPDATE and an INSERT keep it and nothing else
-- counts.
module _ (P : List TenantRow → Type 0) where
  kept_by_transition :
      (f : TxFaults) (id new : Bytes) (froms : List Bytes) (event actor : Bytes) (s : Db)
      → P (move_rows id new froms s.tenants)
      → P s.tenants
      → P (transition_lifecycle f id new froms event actor s).1.tenants
  unfolding transition_lifecycle
  kept_by_transition f id new froms event actor s m h = elim (Bool-cases f.at_begin) [
    | inl b ↦ simp (transition_lifecycle, b) h
    | inr b ↦ elim (Bool-cases f.at_update) [
      | inl u ↦ simp (transition_lifecycle, b, u) h
      | inr u ↦ elim (Bool-cases (rows_affected id froms s.tenants == 0)) [
        | inl z ↦ simp (transition_lifecycle, b, u, z) h
        | inr z ↦ elim (Bool-cases f.at_audit) [
          | inl a ↦ simp (transition_lifecycle, b, u, z, a) h
          | inr a ↦ elim (Bool-cases f.at_commit) [
            | inl c ↦ simp (transition_lifecycle, b, u, z, a, c) h
            | inr c ↦ simp (transition_lifecycle, b, u, z, a, c) m
          ]
        ]
      ]
    ]
  ]

  kept_by_checked :
      (row : TenantRow) (s : Db)
      → ((r : TenantRow)
          → has_id r.id s.tenants ≡ false
          → is_one_of r.lifecycle_state lifecycle_states ≡ true
          → P (r ∷ s.tenants))
      → P s.tenants
      → P (insert_checked row s).1.tenants
  unfolding insert_checked
  kept_by_checked row s add h = elim (Bool-cases (is_one_of row.lifecycle_state lifecycle_states)) [
    | inr k ↦ simp (insert_checked, k) h
    | inl k ↦ elim (Bool-cases (is_one_of row.pool pools)) [
      | inr p ↦ simp (insert_checked, k, p) h
      | inl p ↦ elim (Bool-cases (has_org row.workos_org_id s.tenants)) [
        | inl o ↦ simp (insert_checked, k, p, o) h
        | inr o ↦ elim (Bool-cases (has_id row.id s.tenants)) [
          | inl i ↦ simp (insert_checked, k, p, o, i) h
          | inr i ↦ simp (insert_checked, k, p, o, i) (add row i k)
        ]
      ]
    ]
  ]

  kept_by_insert :
      (row : TenantRow) (s : Db)
      → ((r : TenantRow)
          → has_id r.id s.tenants ≡ false
          → is_one_of r.lifecycle_state lifecycle_states ≡ true
          → P (r ∷ s.tenants))
      → P s.tenants
      → P (insert_row row s).1.tenants
  unfolding insert_row
  kept_by_insert row s add h = elim (Bool-cases (is_org_id row.workos_org_id)) [
    | inr o ↦ simp (insert_row, o) h
    | inl o ↦ simp (insert_row, o) (kept_by_checked row s add h)
  ]

  kept_by_create :
      (fails : Bool) (row : TenantRow) (s : Db)
      → ((r : TenantRow)
          → has_id r.id s.tenants ≡ false
          → is_one_of r.lifecycle_state lifecycle_states ≡ true
          → P (r ∷ s.tenants))
      → P s.tenants
      → P (create fails row s).1.tenants
  unfolding create
  kept_by_create true row s add h = h
  kept_by_create false row s add h = kept_by_insert (with_defaults row) s add h

  kept_by_set :
      (fails : Bool) (id state : Bytes) (s : Db)
      → (is_one_of state lifecycle_states ≡ true → P (set_rows id state s.tenants))
      → P s.tenants
      → P (set_lifecycle_state fails id state s).1.tenants
  unfolding set_lifecycle_state
  kept_by_set true id state s put h = h
  kept_by_set false id state s put h = elim (Bool-cases (has_id id s.tenants)) [
    | inr a ↦ simp (set_lifecycle_state, a) h
    | inl a ↦ elim (Bool-cases (is_one_of state lifecycle_states)) [
      | inr b ↦ simp (set_lifecycle_state, a, b) h
      | inl b ↦ simp (set_lifecycle_state, a, b) (put b)
    ]
  ]

  kept_by_pool :
      (fails : Bool) (id pool : Bytes) (s : Db)
      → P (set_pool id pool s.tenants)
      → P s.tenants
      → P (update_pool_and_dsn fails id pool s).1.tenants
  unfolding update_pool_and_dsn
  kept_by_pool fails id pool s put h = elim (Bool-cases (not (is_one_of pool pools) || fails)) [
    | inl a ↦ simp (update_pool_and_dsn, a) h
    | inr a ↦ elim (Bool-cases (has_id id s.tenants)) [
      | inr b ↦ simp (update_pool_and_dsn, a, b) h
      | inl b ↦ simp (update_pool_and_dsn, a, b) put
    ]
  ]

  -- The four rules: an UPDATE to a known state from states other than deleted, and the INSERT of a row
  -- with a new identifier and a known state.
  pub kept_by_step :
      {s t : Db}
      → ((id new : Bytes) (froms : List Bytes)
          → is_one_of new lifecycle_states ≡ true
          → is_one_of deleted froms ≡ false
          → P (move_rows id new froms s.tenants))
      → ((r : TenantRow)
          → has_id r.id s.tenants ≡ false
          → is_one_of r.lifecycle_state lifecycle_states ≡ true
          → P (r ∷ s.tenants))
      → ((id new : Bytes)
          → is_one_of new lifecycle_states ≡ true
          → state_of id s.tenants ≢ some deleted
          → P (set_rows id new s.tenants))
      → ((id pool : Bytes) → P (set_pool id pool s.tenants))
      → P s.tenants
      → Step s t
      → P t.tenants
  unfolding suspend begin_wind_down delete
  kept_by_step {s} {t} upd add put move h (creates fails row e) =
      subst (λ x. P x.tenants) (sym e) (kept_by_create fails row s add h)
  kept_by_step {s} {t} upd add put move h (suspends f id actor e) =
      subst (λ x. P x.tenants) (sym e)
        (kept_by_transition f id suspended (active ∷ []) (codes "tenant.suspended") actor s
          (upd id suspended (active ∷ []) refl refl) h)
  kept_by_step {s} {t} upd add put move h (winds_down f id actor e) =
      subst (λ x. P x.tenants) (sym e)
        (kept_by_transition f id wind_down (active ∷ suspended ∷ []) (codes "tenant.wind_down")
          actor s (upd id wind_down (active ∷ suspended ∷ []) refl refl) h)
  kept_by_step {s} {t} upd add put move h (deletes f d id actor false e) =
      subst (λ x. P x.tenants) (sym e) h
  kept_by_step {s} {t} upd add put move h (deletes f d id actor true e) =
      subst (λ x. P x.tenants) (sym e)
        (subst P
          (sym (
            tenants-then_drop d id (
              transition_lifecycle f id deleted (active ∷ suspended ∷ wind_down ∷ [])
                (codes "tenant.deleted") actor s)))
          (kept_by_transition f id deleted (active ∷ suspended ∷ wind_down ∷ [])
            (codes "tenant.deleted") actor s
            (upd id deleted (active ∷ suspended ∷ wind_down ∷ []) refl refl) h))
  kept_by_step {s} {t} upd add put move h (sets fails id state n e) =
      subst (λ x. P x.tenants) (sym e) (kept_by_set fails id state s (λ k. put id state k n) h)
  kept_by_step {s} {t} upd add put move h (moves_pool fails id pool e) =
      subst (λ x. P x.tenants) (sym e) (kept_by_pool fails id pool s (move id pool) h)
