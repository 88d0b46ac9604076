-- ===== src/Tenant/Effect.antt =====
-- What `transitionLifecycle` of internal/tenant/lifecycle.go does, on every branch.
use neksur.Prelude.{
  ℕ, suc, ◌≡◌, refl, sym, ap, ◌∙◌, true, false, none, some, List, [], ◌∷◌, ◌==◌, Bytes, same,
  same→eq, same_refl, arith, Bool-cases, Option-cases, inl, inr,
}
use neksur.Tenant.Rows.{
  TenantRow, Db, Outcome, done, tenant_not_found, db_failed, is_one_of, has_id,
}
use neksur.Tenant.Lifecycle.{TxFaults, is_target, move_rows, rows_affected, transition_lifecycle}
use neksur.Tenant.Moves.{
  state_of, IsUnique, target_same, target_other, target_id, rows_affected_zero, none_affected,
}

state_of-move_rows_self :
    (id new s : Bytes) (froms : List Bytes) (rows : List TenantRow)
    → is_one_of s froms ≡ true
    → state_of id rows ≡ some s
    → state_of id (move_rows id new froms rows) ≡ some new
unfolding move_rows
state_of-move_rows_self id new s froms [] n h = cc
state_of-move_rows_self id new s froms (r ∷ rs) n h = elim (Bool-cases (same r.id id)) [
  | inl e ↦
      let k : r.lifecycle_state ≡ s = cc (rw e at h) in
      rw (target_same id froms r e ∙ ap (λ x. is_one_of x froms) k ∙ n, e) refl
  | inr e ↦
      rw (target_other id froms r e, e) (state_of-move_rows_self id new s froms rs n (rw e at h))
]

state_of-move_rows_other :
    (id k new : Bytes) (froms : List Bytes) (rows : List TenantRow)
    → same k id ≡ false
    → state_of k (move_rows id new froms rows) ≡ state_of k rows
unfolding move_rows
state_of-move_rows_other id k new froms [] n = refl
state_of-move_rows_other id k new froms (r ∷ rs) n = elim (Bool-cases (is_target id froms r)) [
  | inr t ↦ rw (t, state_of-move_rows_other id k new froms rs n) refl
  | inl t ↦ elim (Bool-cases (same r.id k)) [
    | inl e ↦
        cc (n, ap (λ x. same x id) (sym (same→eq r.id k e) ∙ target_id id froms r t) ∙ same_refl id)
    | inr e ↦ rw (t, e, state_of-move_rows_other id k new froms rs n) refl
  ]
]

positive : (n : ℕ) → (suc n == 0) ≡ false
positive n = ground arith

some_affected :
    (id s : Bytes) (froms : List Bytes) (rows : List TenantRow)
    → is_one_of s froms ≡ true
    → state_of id rows ≡ some s
    → (rows_affected id froms rows == 0) ≡ false
unfolding rows_affected
some_affected id s froms [] n h = cc
some_affected id s froms (r ∷ rs) n h = elim (Bool-cases (same r.id id)) [
  | inl e ↦
      let k : r.lifecycle_state ≡ s = cc (rw e at h) in
      rw (target_same id froms r e ∙ ap (λ x. is_one_of x froms) k ∙ n)
        (positive (rows_affected id froms rs))
  | inr e ↦ rw (target_other id froms r e) (some_affected id s froms rs n (rw e at h))
]

absent : (id : Bytes) (rows : List TenantRow) → state_of id rows ≡ none → has_id id rows ≡ false
absent id [] h = refl
absent id (r ∷ rs) h = elim (Bool-cases (same r.id id)) [
  | inl e ↦ cc (rw e at h)
  | inr e ↦ rw e (absent id rs (rw e at h))
]

-- A call either fails and changes nothing; or finds no tenant in one of the states and changes
-- nothing; or moves that tenant, and adds one line to the audit log.
pub data Effect (id new_state : Bytes) (from_states : List Bytes) (event_type actor : Bytes)
    (s : Db) : Outcome × Db → Type 0 where
  failed : Effect id new_state from_states event_type actor s (db_failed, s)
  refused :
      ((x : Bytes) → state_of id s.tenants ≡ some x → is_one_of x from_states ≡ false)
      → Effect id new_state from_states event_type actor s (tenant_not_found, s)
  moved :
      (x : Bytes) (t : Db)
      → state_of id s.tenants ≡ some x
      → is_one_of x from_states ≡ true
      → state_of id t.tenants ≡ some new_state
      → ((k : Bytes) → same k id ≡ false → state_of k t.tenants ≡ state_of k s.tenants)
      → t.audit_log
        ≡ record {
          actor = actor;
          target = id;
          event_type = event_type;
          new_state = new_state;
          from_states = from_states;
        }
          ∷ s.audit_log
      → t.graphs ≡ s.graphs
      → Effect id new_state from_states event_type actor s (done, t)

module _ (f : TxFaults) (id new_state : Bytes) (from_states : List Bytes) (event_type actor : Bytes)
    (s : Db) where
  refuses :
      (rows_affected id from_states s.tenants ≡ 0)
      → ((x : Bytes) → state_of id s.tenants ≡ some x → is_one_of x from_states ≡ false)
      → Effect id new_state from_states event_type actor s
          (transition_lifecycle f id new_state from_states event_type actor s)
  unfolding transition_lifecycle
  refuses z h = elim (Bool-cases f.at_begin) [
    | inl b ↦ simp (transition_lifecycle, b) failed
    | inr b ↦ elim (Bool-cases f.at_update) [
      | inl u ↦ simp (transition_lifecycle, b, u) failed
      | inr u ↦ simp (transition_lifecycle, b, u, z) (refused h)
    ]
  ]

  moves :
      (x : Bytes)
      → state_of id s.tenants ≡ some x
      → is_one_of x from_states ≡ true
      → Effect id new_state from_states event_type actor s
          (transition_lifecycle f id new_state from_states event_type actor s)
  unfolding transition_lifecycle
  moves x h n = elim (Bool-cases f.at_begin) [
    | inl b ↦ simp (transition_lifecycle, b) failed
    | inr b ↦ elim (Bool-cases f.at_update) [
      | inl u ↦ simp (transition_lifecycle, b, u) failed
      | inr u ↦
          let z = some_affected id x from_states s.tenants n h in
          elim (Bool-cases f.at_audit) [
            | inl a ↦ simp (transition_lifecycle, b, u, z, a) failed
            | inr a ↦ elim (Bool-cases f.at_commit) [
              | inl c ↦ simp (transition_lifecycle, b, u, z, a, c) failed
              | inr c ↦
                  simp (transition_lifecycle, b, u, z, a, c)
                    (moved x _ h n
                      (state_of-move_rows_self id new_state x from_states s.tenants n h)
                      (λ k m. state_of-move_rows_other id k new_state from_states s.tenants m) refl
                      refl)
            ]
          ]
    ]
  ]

  -- With distinct identifiers, a lifecycle transition has one of these effects, on every fault of the
  -- database: it fails and changes nothing; or the tenant is in none of the expected states, the
  -- error is that it is not found, and nothing changes; or it is in one, moves to the new state, no
  -- other tenant moves, and one line is added to the audit log.
  pub transition_lifecycle-Effect :
      IsUnique s.tenants
      → Effect id new_state from_states event_type actor s
          (transition_lifecycle f id new_state from_states event_type actor s)
  transition_lifecycle-Effect u = elim (Option-cases (state_of id s.tenants)) [
    | inl h ↦
        refuses (none_affected id from_states s.tenants (absent id s.tenants h)) (λ x k. cc (h, k))
    | inr (x, h) ↦ elim (Bool-cases (is_one_of x from_states)) [
      | inl n ↦ moves x h n
      | inr n ↦
          refuses (rows_affected_zero id x from_states s.tenants u n h)
            (λ y k. let e : x ≡ y = cc (h, k) in ap (λ z. is_one_of z from_states) (sym e) ∙ n)
    ]
  ]
