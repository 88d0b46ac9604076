-- ===== src/Tenant/Terminal.antt =====
-- What every sequence of calls of internal/tenant/lifecycle.go keeps.
use neksur.Prelude.{
  ◌≡◌, refl, sym, ◌∙◌, ap, Bool, true, false, some, List, [], ◌∷◌, Bytes, codes, same, same→eq,
  Bool-cases, inl, inr,
}
use neksur.Tenant.Rows.{TenantRow, Db, active, suspended, wind_down, deleted, has_id}
use neksur.Tenant.Lifecycle.{
  TxFaults, DropFaults, rows_affected, transition_lifecycle, then_drop, delete,
}
use neksur.Tenant.Moves.{
  set_pool-IsUnique, known_states-set_pool, state_of-set_pool, state_of, IsUnique, known_states,
  move_rows-IsUnique, known_states-move_rows, state_of-move_rows_kept, rows_affected_zero,
  set_rows-IsUnique, known_states-set_rows, state_of-set_rows,
}
use neksur.Tenant.Reach.{Step, Reach, here, next, kept_by_step}

-- Distinct identifiers, and states that the code knows.
abbrev pub IsSound : List TenantRow → Type 0
IsSound rows = IsUnique rows × (known_states rows ≡ true)

Step-IsSound : {s t : Db} → IsSound s.tenants → Step s t → IsSound t.tenants
Step-IsSound {s} {t} h step =
    kept_by_step IsSound
      (λ id new froms n m. (
        move_rows-IsUnique id new froms s.tenants h.0,
        known_states-move_rows id new froms s.tenants n h.1,
      ))
      (λ r n k. ((n, h.0), rw k h.1))
      (λ id new k n.
        (set_rows-IsUnique id new s.tenants h.0, known_states-set_rows id new s.tenants k h.1))
      (λ id pool.
        (set_pool-IsUnique id pool s.tenants h.0, known_states-set_pool id pool s.tenants ∙ h.1))
      h step

-- From sound rows, every sequence of calls, with any failures of the database, keeps the identifiers
-- distinct and the states among the four known ones, if `SetLifecycleState` is called only for tenants
-- that are not deleted.
pub Reach-IsSound : {s t : Db} → IsSound s.tenants → Reach s t → IsSound t.tenants
Reach-IsSound h here = h
Reach-IsSound h (next r step) = Step-IsSound (Reach-IsSound h r) step

known_has_id :
    (id x : Bytes) (rows : List TenantRow) → state_of id rows ≡ some x → has_id id rows ≡ true
known_has_id id x [] h = cc
known_has_id id x (r ∷ rs) h = elim (Bool-cases (same r.id id)) [
  | inl e ↦ rw e refl
  | inr e ↦ rw e (known_has_id id x rs (rw e at h))
]

state_of-insert :
    (id x : Bytes) (r : TenantRow) (rows : List TenantRow)
    → has_id r.id rows ≡ false
    → state_of id rows ≡ some x
    → state_of id (r ∷ rows) ≡ some x
state_of-insert id x r rows n h = elim (Bool-cases (same r.id id)) [
  | inl e ↦ cc (n, ap (λ y. has_id y rows) (same→eq r.id id e), known_has_id id x rows h)
  | inr e ↦ rw e h
]

Step-deleted :
    {s t : Db} (id : Bytes)
    → state_of id s.tenants ≡ some deleted
    → Step s t
    → state_of id t.tenants ≡ some deleted
Step-deleted {s} {t} id h step =
    kept_by_step (λ rows. state_of id rows ≡ some deleted)
      (λ j new froms n m. state_of-move_rows_kept id j new deleted froms s.tenants m h)
      (λ r n k. state_of-insert id deleted r s.tenants n h)
      (λ j new k n.
        state_of-set_rows id j new s.tenants (λ e. n (ap (λ x. state_of x s.tenants) (sym e) ∙ h))
        ∙ h)
      (λ j pool. state_of-set_pool id j pool s.tenants ∙ h) h step

-- A deleted tenant stays deleted, whatever calls follow, if `SetLifecycleState`, which has no test on
-- the state before it, is called only for tenants that are not deleted.
pub Reach-deleted :
    {s t : Db} (id : Bytes)
    → state_of id s.tenants ≡ some deleted
    → Reach s t
    → state_of id t.tenants ≡ some deleted
Reach-deleted id h here = h
Reach-deleted id h (next r step) = Step-deleted id (Reach-deleted id h r) step

refused_drop :
    (f : TxFaults) (d : DropFaults) (id : Bytes) (event actor : Bytes) (s : Db)
    → rows_affected id (active ∷ suspended ∷ wind_down ∷ []) s.tenants ≡ 0
    → (then_drop d id
        (transition_lifecycle f id deleted (active ∷ suspended ∷ wind_down ∷ []) event actor s)).1
      ≡ s
unfolding transition_lifecycle
refused_drop f d id event actor s z = elim (Bool-cases f.at_begin) [
  | inl b ↦ simp (transition_lifecycle, b)
  | inr b ↦ elim (Bool-cases f.at_update) [
    | inl u ↦ simp (transition_lifecycle, b, u)
    | inr u ↦ simp (transition_lifecycle, b, u, z)
  ]
]

unchanged :
    (f : TxFaults) (d : DropFaults) (id actor : Bytes) (confirm : Bool) (t : Db)
    → rows_affected id (active ∷ suspended ∷ wind_down ∷ []) t.tenants ≡ 0
    → (delete f d id actor confirm t).1 ≡ t
unfolding delete
unchanged f d id actor true t z = refused_drop f d id (codes "tenant.deleted") actor t z
unchanged f d id actor false t z = refl

-- Once a tenant is deleted, every later call of `Delete` for it changes nothing, whatever other calls
-- came before, with that condition on `SetLifecycleState`, and whatever its arguments are: a graph that
-- the first call left behind, because its drop failed, is not dropped by a retry.
pub delete_retry :
    {s t : Db} (f : TxFaults) (d : DropFaults) (id actor : Bytes) (confirm : Bool)
    → IsSound s.tenants
    → state_of id s.tenants ≡ some deleted
    → Reach s t
    → (delete f d id actor confirm t).1 ≡ t
delete_retry {s} {t} f d id actor confirm w h r = unchanged f d id actor confirm t (
    rows_affected_zero id deleted (active ∷ suspended ∷ wind_down ∷ []) t.tenants
      (Reach-IsSound w r).0 refl (Reach-deleted id h r))
