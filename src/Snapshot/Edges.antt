-- ===== src/Snapshot/Edges.antt =====
-- What a write and a sweep of internal/coordination/snapshot do to the nodes and the edges.
use mathlib.Core.List.{Memᴰ}
use mathlib.Core.List.Memᴰ
use neksur.Prelude.{
  ℕ, ◌≡◌, refl, sym, ap, ◌∙◌, Bool, true, false, not, ◌&&◌, ◌||◌, List, [], ◌∷◌, Bytes, same,
  same→eq, same_refl, arith, Bool-cases, and_left, and_right, ◌⊎◌, inl, inr,
}
use neksur.Snapshot.Pins.{
  SnapshotPin, PinNode, PinCacheKey, PinsEdge, Graph, same_table, is_pin, has_pin, has_table,
  is_edge, has_edge, node_of, table_of, set_pins, merge_node, merge_edge, pin_of, is_active,
  active_pins, is_swept, swept_pins, has_swept,
}
use neksur.Snapshot.Store.{kept_edges}

pub or_cases : (a b : Bool) → (a || b) ≡ true → (a ≡ true) ⊎ (b ≡ true)
or_cases true b h = inl refl
or_cases false b h = inr h

or_right : (a b : Bool) → b ≡ true → (a || b) ≡ true
or_right true b h = refl
or_right false b h = h

key_of_fields : Bytes → Bytes → Bytes → PinCacheKey
key_of_fields a b c = record { tenant_id = a; namespace = b; table = c }

key_eq :
    (j k : PinCacheKey)
    → j.tenant_id ≡ k.tenant_id
    → j.namespace ≡ k.namespace
    → j.table ≡ k.table
    → key_of_fields j.tenant_id j.namespace j.table ≡ key_of_fields k.tenant_id k.namespace k.table
key_eq j k d e f = cc

pub same_table→eq : (j k : PinCacheKey) → same_table j k ≡ true → j ≡ k
unfolding same_table key_of_fields
same_table→eq j k h =
    let tenants = same j.tenant_id k.tenant_id in
    let spaces = same j.namespace k.namespace in
    let both = and_left (tenants && spaces) (same j.table k.table) h in
    key_eq j k (same→eq j.tenant_id k.tenant_id (and_left tenants spaces both))
      (same→eq j.namespace k.namespace (and_right tenants spaces both))
      (same→eq j.table k.table (and_right (tenants && spaces) (same j.table k.table) h))

pub same_table_refl : (k : PinCacheKey) → same_table k k ≡ true
unfolding same_table
same_table_refl k = ground (arith, same_refl k.tenant_id, same_refl k.namespace, same_refl k.table)

pub active_pins-Mem :
    (now : ℕ) (k : PinCacheKey) (es : List PinsEdge) (ns : List PinNode) (n : PinNode)
    → Memᴰ n ns
    → is_active now k es n ≡ true
    → Memᴰ (pin_of k n) (active_pins now k es ns)
unfolding active_pins
active_pins-Mem now k es [] n m a = elim m [ ]
active_pins-Mem now k es (x ∷ xs) n (Memᴰ.head e) a =
    rw (ap (is_active now k es) (sym e) ∙ a) (Memᴰ.head (ap (pin_of k) e))
active_pins-Mem now k es (x ∷ xs) n (Memᴰ.tail m) a = elim (Bool-cases (is_active now k es x)) [
  | inl y ↦ rw y (Memᴰ.tail (active_pins-Mem now k es xs n m a))
  | inr y ↦ rw y (active_pins-Mem now k es xs n m a)
]

pub Mem-swept_pins :
    (tenant : Bytes) (now : ℕ) (ns : List PinNode) (n : PinNode)
    → Memᴰ n (swept_pins tenant now ns)
    → Memᴰ n ns
unfolding swept_pins
Mem-swept_pins tenant now [] n m = elim m [ ]
Mem-swept_pins tenant now (x ∷ xs) n m = elim (Bool-cases (is_swept tenant now x)) [
  | inl y ↦ Memᴰ.tail (Mem-swept_pins tenant now xs n (rw y at m))
  | inr y ↦ elim (Memᴰ.cases_cons (rw y at m)) [
    | inl e ↦ Memᴰ.head e
    | inr t ↦ Memᴰ.tail (Mem-swept_pins tenant now xs n t)
  ]
]

pub has_edge-kept_edges :
    (tenant : Bytes) (now : ℕ) (ns : List PinNode) (name : Bytes) (k : PinCacheKey)
    (es : List PinsEdge)
    → has_edge name k (kept_edges tenant now ns es) ≡ true
    → has_edge name k es ≡ true
unfolding kept_edges has_edge
has_edge-kept_edges tenant now ns name k [] h = h
has_edge-kept_edges tenant now ns name k (e ∷ es) h =
    elim (Bool-cases (same e.target.tenant_id tenant && has_swept tenant now e.pin ns)) [
      | inl y ↦
          or_right (is_edge name k e) (has_edge name k es)
            (has_edge-kept_edges tenant now ns name k es (rw y at h))
      | inr y ↦
          elim (or_cases (is_edge name k e) (has_edge name k (kept_edges tenant now ns es))
            (rw y at h)) [
              | inl i ↦ rw i refl
              | inr r ↦
                  or_right (is_edge name k e) (has_edge name k es)
                    (has_edge-kept_edges tenant now ns name k es r)
            ]
    ]

pub Mem-set_pins :
    (tenant : Bytes) (p : SnapshotPin) (ns : List PinNode) (n : PinNode)
    → Memᴰ n (set_pins tenant p ns)
    → (n ≡ node_of tenant p) ⊎ Memᴰ n ns
unfolding set_pins
Mem-set_pins tenant p [] n m = elim m [ ]
Mem-set_pins tenant p (x ∷ xs) n m = elim (Memᴰ.cases_cons m) [
  | inr t ↦ elim (Mem-set_pins tenant p xs n t) [ inl e ↦ inl e | inr u ↦ inr (Memᴰ.tail u) ]
  | inl e ↦ elim (Bool-cases (is_pin tenant p.name x)) [
    | inl y ↦ inl (rw y at e)
    | inr y ↦ inr (Memᴰ.head (rw y at e))
  ]
]

pub Mem-merge_node :
    (tenant : Bytes) (p : SnapshotPin) (g : Graph) (n : PinNode)
    → Memᴰ n (merge_node tenant p g).pins
    → (n ≡ node_of tenant p) ⊎ Memᴰ n g.pins
unfolding merge_node
Mem-merge_node tenant p g n m = elim (Bool-cases (has_pin tenant p.name g.pins)) [
  | inl y ↦ Mem-set_pins tenant p g.pins n (rw y at m)
  | inr y ↦ Memᴰ.cases_cons (rw y at m)
]

pub pins-merge_edge :
    (tenant : Bytes) (p : SnapshotPin) (g : Graph) → (merge_edge tenant p g).pins ≡ g.pins
unfolding merge_edge
pins-merge_edge tenant p g = ground arith

pub has_edge-merge_edge :
    (tenant : Bytes) (p : SnapshotPin) (g : Graph) (name : Bytes) (k : PinCacheKey)
    → has_edge name k (merge_edge tenant p g).edges ≡ true
    → (has_edge name k g.edges ≡ true) ⊎ (table_of tenant p ≡ k)
unfolding merge_edge has_edge is_edge
has_edge-merge_edge tenant p g name k h =
    elim (Bool-cases
      (not (has_pin tenant p.name g.pins && has_table (table_of tenant p) g.tables))) [
        | inl y ↦ inl (simp (y) at h)
        | inr y ↦ elim (Bool-cases (has_edge p.name (table_of tenant p) g.edges)) [
          | inl z ↦ inl (rw (y, z) at h)
          | inr z ↦
              elim (or_cases (same p.name name && same_table (table_of tenant p) k)
                (has_edge name k g.edges) (rw (y, z) at h)) [
                  | inl i ↦ inr (
                      same_table→eq (table_of tenant p) k
                        (and_right (same p.name name) (same_table (table_of tenant p) k) i))
                  | inr o ↦ inl o
                ]
        ]
      ]
