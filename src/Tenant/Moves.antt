-- ===== src/Tenant/Moves.antt =====
-- What the UPDATE of internal/tenant/lifecycle.go does to the rows.
use neksur.Prelude.{
  ◌≡◌, ◌≢◌, refl, sym, ap, ◌∙◌, Bool, true, false, Option, none, some, List, [], ◌∷◌, if◌then◌else◌,
  Bytes, same, same→eq, and_left, and_right, all, Bool-cases, inl, inr,
}
use neksur.Tenant.Rows.{TenantRow, is_one_of, has_id, lifecycle_states, set_rows, set_pool}
use neksur.Tenant.Lifecycle.{is_target, move_rows, rows_affected}

-- The state of the row with this identifier.
abbrev pub state_of : Bytes → List TenantRow → Option Bytes
state_of id [] = none
state_of id (r ∷ rs) = if same r.id id then some r.lifecycle_state else state_of id rs

abbrev pub IsUnique : List TenantRow → Type 0
IsUnique [] = Unit {0}
IsUnique (r ∷ rs) = (has_id r.id rs ≡ false) × IsUnique rs

abbrev pub known_states : List TenantRow → Bool
known_states rows = all (λ r. is_one_of r.lifecycle_state lifecycle_states) rows

some_inj : (a b : Bytes) → some a ≡ some b → a ≡ b
some_inj a b h = cc

pub target_same :
    (id : Bytes) (froms : List Bytes) (r : TenantRow)
    → same r.id id ≡ true
    → is_target id froms r ≡ is_one_of r.lifecycle_state froms
unfolding is_target
target_same id froms r h = rw h refl

pub target_other :
    (id : Bytes) (froms : List Bytes) (r : TenantRow)
    → same r.id id ≡ false
    → is_target id froms r ≡ false
unfolding is_target
target_other id froms r h = rw h refl

pub target_state :
    (id : Bytes) (froms : List Bytes) (r : TenantRow)
    → is_target id froms r ≡ true
    → is_one_of r.lifecycle_state froms ≡ true
unfolding is_target
target_state id froms r h = and_right (same r.id id) (is_one_of r.lifecycle_state froms) h

pub target_id :
    (id : Bytes) (froms : List Bytes) (r : TenantRow) → is_target id froms r ≡ true → r.id ≡ id
unfolding is_target
target_id id froms r h =
    same→eq r.id id (and_left (same r.id id) (is_one_of r.lifecycle_state froms) h)

-- A state that is none of the predecessors is kept by any UPDATE.
pub state_of-move_rows_kept :
    (id j new s : Bytes) (froms : List Bytes) (rows : List TenantRow)
    → is_one_of s froms ≡ false
    → state_of id rows ≡ some s
    → state_of id (move_rows j new froms rows) ≡ some s
unfolding move_rows
state_of-move_rows_kept id j new s froms [] n h = cc
state_of-move_rows_kept id j new s froms (r ∷ rs) n h = elim (Bool-cases (same r.id id)) [
  | inl e ↦
      let k = some_inj r.lifecycle_state s (rw e at h) in
      elim (Bool-cases (is_target j froms r)) [
        | inl t ↦ cc (ap (λ x. is_one_of x froms) k, target_state j froms r t, n)
        | inr t ↦ rw (t, e) (ap (some) k)
      ]
  | inr e ↦ elim (Bool-cases (is_target j froms r)) [
    | inl t ↦ rw (t, e) (state_of-move_rows_kept id j new s froms rs n (rw e at h))
    | inr t ↦ rw (t, e) (state_of-move_rows_kept id j new s froms rs n (rw e at h))
  ]
]

has_id-move_rows :
    (id j new : Bytes) (froms : List Bytes) (rows : List TenantRow)
    → has_id id (move_rows j new froms rows) ≡ has_id id rows
unfolding move_rows
has_id-move_rows id j new froms [] = refl
has_id-move_rows id j new froms (r ∷ rs) = elim (Bool-cases (is_target j froms r)) [
  | inl t ↦ rw (t, has_id-move_rows id j new froms rs) refl
  | inr t ↦ rw (t, has_id-move_rows id j new froms rs) refl
]

pub move_rows-IsUnique :
    (j new : Bytes) (froms : List Bytes) (rows : List TenantRow)
    → IsUnique rows
    → IsUnique (move_rows j new froms rows)
unfolding move_rows
move_rows-IsUnique j new froms [] u = tt
move_rows-IsUnique j new froms (r ∷ rs) u = elim (Bool-cases (is_target j froms r)) [
  | inl t ↦ rw t (has_id-move_rows r.id j new froms rs ∙ u.0, move_rows-IsUnique j new froms rs u.1)
  | inr t ↦ rw t (has_id-move_rows r.id j new froms rs ∙ u.0, move_rows-IsUnique j new froms rs u.1)
]

pub known_states-move_rows :
    (j new : Bytes) (froms : List Bytes) (rows : List TenantRow)
    → is_one_of new lifecycle_states ≡ true
    → known_states rows ≡ true
    → known_states (move_rows j new froms rows) ≡ true
unfolding move_rows
known_states-move_rows j new froms [] n h = refl
known_states-move_rows j new froms (r ∷ rs) n h =
    let h0 = and_left (is_one_of r.lifecycle_state lifecycle_states) (known_states rs) h in
    let ih =
      known_states-move_rows j new froms rs n
        (and_right (is_one_of r.lifecycle_state lifecycle_states) (known_states rs) h) in
    elim (Bool-cases (is_target j froms r)) [ inl t ↦ rw (t, n) ih | inr t ↦ rw (t, h0) ih ]

pub none_affected :
    (id : Bytes) (froms : List Bytes) (rows : List TenantRow)
    → has_id id rows ≡ false
    → rows_affected id froms rows ≡ 0
unfolding rows_affected
none_affected id froms [] h = refl
none_affected id froms (r ∷ rs) h = elim (Bool-cases (same r.id id)) [
  | inl e ↦ cc (rw e at h)
  | inr e ↦ rw (target_other id froms r e) (none_affected id froms rs (rw e at h))
]

-- A tenant in no state that the UPDATE asks for is not updated.
pub rows_affected_zero :
    (id s : Bytes) (froms : List Bytes) (rows : List TenantRow)
    → IsUnique rows
    → is_one_of s froms ≡ false
    → state_of id rows ≡ some s
    → rows_affected id froms rows ≡ 0
unfolding rows_affected
rows_affected_zero id s froms [] u n h = refl
rows_affected_zero id s froms (r ∷ rs) u n h = elim (Bool-cases (same r.id id)) [
  | inl e ↦
      let k = ap (λ x. is_one_of x froms) (some_inj r.lifecycle_state s (rw e at h)) ∙ n in
      rw (target_same id froms r e ∙ k)
        (none_affected id froms rs (ap (λ x. has_id x rs) (sym (same→eq r.id id e)) ∙ u.0))
  | inr e ↦ rw (target_other id froms r e) (rows_affected_zero id s froms rs u.1 n (rw e at h))
]

has_id-set_rows :
    (j id new : Bytes) (rows : List TenantRow) → has_id j (set_rows id new rows) ≡ has_id j rows
unfolding set_rows
has_id-set_rows j id new [] = refl
has_id-set_rows j id new (r ∷ rs) = elim (Bool-cases (same r.id id)) [
  | inl t ↦ rw (t, has_id-set_rows j id new rs) refl
  | inr t ↦ rw (t, has_id-set_rows j id new rs) refl
]

pub set_rows-IsUnique :
    (id new : Bytes) (rows : List TenantRow) → IsUnique rows → IsUnique (set_rows id new rows)
unfolding set_rows
set_rows-IsUnique id new [] u = tt
set_rows-IsUnique id new (r ∷ rs) u = elim (Bool-cases (same r.id id)) [
  | inl t ↦ rw t (has_id-set_rows r.id id new rs ∙ u.0, set_rows-IsUnique id new rs u.1)
  | inr t ↦ rw t (has_id-set_rows r.id id new rs ∙ u.0, set_rows-IsUnique id new rs u.1)
]

pub known_states-set_rows :
    (id new : Bytes) (rows : List TenantRow)
    → is_one_of new lifecycle_states ≡ true
    → known_states rows ≡ true
    → known_states (set_rows id new rows) ≡ true
unfolding set_rows
known_states-set_rows id new [] n h = refl
known_states-set_rows id new (r ∷ rs) n h =
    let h0 = and_left (is_one_of r.lifecycle_state lifecycle_states) (known_states rs) h in
    let ih =
      known_states-set_rows id new rs n
        (and_right (is_one_of r.lifecycle_state lifecycle_states) (known_states rs) h) in
    elim (Bool-cases (same r.id id)) [ inl t ↦ rw (t, n) ih | inr t ↦ rw (t, h0) ih ]

-- The state of another tenant is kept.
pub state_of-set_rows :
    (j id new : Bytes) (rows : List TenantRow)
    → j ≢ id
    → state_of j (set_rows id new rows) ≡ state_of j rows
unfolding set_rows
state_of-set_rows j id new [] n = refl
state_of-set_rows j id new (r ∷ rs) n = elim (Bool-cases (same r.id j)) [
  | inl e ↦ elim (Bool-cases (same r.id id)) [
    | inl t ↦ elim (n (sym (same→eq r.id j e) ∙ same→eq r.id id t)) [ ]
    | inr t ↦ rw (t, e) refl
  ]
  | inr e ↦ elim (Bool-cases (same r.id id)) [
    | inl t ↦ rw (t, e) (state_of-set_rows j id new rs n)
    | inr t ↦ rw (t, e) (state_of-set_rows j id new rs n)
  ]
]

has_id-set_pool :
    (j id pool : Bytes) (rows : List TenantRow) → has_id j (set_pool id pool rows) ≡ has_id j rows
unfolding set_pool
has_id-set_pool j id pool [] = refl
has_id-set_pool j id pool (r ∷ rs) = elim (Bool-cases (same r.id id)) [
  | inl t ↦ rw (t, has_id-set_pool j id pool rs) refl
  | inr t ↦ rw (t, has_id-set_pool j id pool rs) refl
]

pub set_pool-IsUnique :
    (id pool : Bytes) (rows : List TenantRow) → IsUnique rows → IsUnique (set_pool id pool rows)
unfolding set_pool
set_pool-IsUnique id pool [] u = tt
set_pool-IsUnique id pool (r ∷ rs) u = elim (Bool-cases (same r.id id)) [
  | inl t ↦ rw t (has_id-set_pool r.id id pool rs ∙ u.0, set_pool-IsUnique id pool rs u.1)
  | inr t ↦ rw t (has_id-set_pool r.id id pool rs ∙ u.0, set_pool-IsUnique id pool rs u.1)
]

pub known_states-set_pool :
    (id pool : Bytes) (rows : List TenantRow)
    → known_states (set_pool id pool rows) ≡ known_states rows
unfolding set_pool
known_states-set_pool id pool [] = refl
known_states-set_pool id pool (r ∷ rs) = elim (Bool-cases (same r.id id)) [
  | inl t ↦ rw (t, known_states-set_pool id pool rs) refl
  | inr t ↦ rw (t, known_states-set_pool id pool rs) refl
]

pub state_of-set_pool :
    (j id pool : Bytes) (rows : List TenantRow)
    → state_of j (set_pool id pool rows) ≡ state_of j rows
unfolding set_pool
state_of-set_pool j id pool [] = refl
state_of-set_pool j id pool (r ∷ rs) = elim (Bool-cases (same r.id id)) [
  | inl t ↦ rw (t, state_of-set_pool j id pool rs) refl
  | inr t ↦ rw (t, state_of-set_pool j id pool rs) refl
]
