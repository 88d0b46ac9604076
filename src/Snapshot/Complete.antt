-- ===== src/Snapshot/Complete.antt =====
-- The pins that internal/coordination/snapshot serves, after any sequence of its calls, one at a time.
use mathlib.Core.List.{Memᴰ}
use neksur.Prelude.{
  ℕ, ◌≡◌, ◌≢◌, ◌≤◌, refl, sym, ap, subst, ◌∙◌, true, ◌&&◌, List, ltb, Bytes, same, same→eq, arith,
  and_left, and_right, inl, inr,
}
use neksur.Snapshot.Pins.{
  SnapshotPin, PinNode, PinCacheKey, PinsEdge, Graph, has_edge, node_of, table_of, merge_node,
  merge_edge, pin_of, is_active, active_pins,
}
use neksur.Snapshot.Store.{kept_edges, sweep_graph}
use neksur.Snapshot.Edges.{
  active_pins-Mem, Mem-swept_pins, has_edge-kept_edges, Mem-merge_node, pins-merge_edge,
  has_edge-merge_edge,
}

-- The list has each pin of the graph that is active on the table.
unfoldable pub HasActive : ℕ → PinCacheKey → Graph → List SnapshotPin → Type 0
HasActive now k g w =
    (n : PinNode) → Memᴰ n g.pins → is_active now k g.edges n ≡ true → Memᴰ (pin_of k n) w

-- The graph has no edge from a pin of the name to another table of the tenant.
unfoldable pub PinsOnly : Bytes → SnapshotPin → Graph → Type 0
PinsOnly tenant p g =
    (k : PinCacheKey)
    → k.tenant_id ≡ tenant
    → has_edge p.name k g.edges ≡ true
    → k ≡ table_of tenant p

active_parts :
    (now : ℕ) (k : PinCacheKey) (es : List PinsEdge) (n : PinNode)
    → is_active now k es n ≡ true
    → (same n.pin_tenant k.tenant_id ≡ true)
      × (has_edge n.pin_name k es ≡ true)
      × (ltb now n.expiry ≡ true)
unfolding is_active
active_parts now k es n a =
    let both =
      and_left (same n.pin_tenant k.tenant_id && has_edge n.pin_name k es) (ltb now n.expiry) a in
    (
      and_left (same n.pin_tenant k.tenant_id) (has_edge n.pin_name k es) both,
      and_right (same n.pin_tenant k.tenant_id) (has_edge n.pin_name k es) both,
      and_right (same n.pin_tenant k.tenant_id && has_edge n.pin_name k es) (ltb now n.expiry) a,
    )

pub active_of_parts :
    (now : ℕ) (k : PinCacheKey) (es : List PinsEdge) (n : PinNode)
    → same n.pin_tenant k.tenant_id ≡ true
    → has_edge n.pin_name k es ≡ true
    → ltb now n.expiry ≡ true
    → is_active now k es n ≡ true
unfolding is_active
active_of_parts now k es n a b c = rw (a, b, c) refl

-- What is active later, in a graph with fewer edges, is active now.
active_before :
    (now later : ℕ) (k : PinCacheKey) (es fs : List PinsEdge) (n : PinNode)
    → now ≤ later
    → (has_edge n.pin_name k fs ≡ true → has_edge n.pin_name k es ≡ true)
    → is_active later k fs n ≡ true
    → is_active now k es n ≡ true
active_before now later k es fs n le back a =
    let (t, e, x) : (same n.pin_tenant k.tenant_id ≡ true)
        × (has_edge n.pin_name k fs ≡ true)
        × (ltb later n.expiry ≡ true) =
      active_parts later k fs n a in
    active_of_parts now k es n t (back e) (ground (arith, le, x))

pub HasActive-later :
    (now later : ℕ) (k : PinCacheKey) (g : Graph) (w : List SnapshotPin)
    → now ≤ later
    → HasActive now k g w
    → HasActive later k g w
unfolding HasActive
HasActive-later now later k g w le h n m a =
    h n m (active_before now later k g.edges g.edges n le (λ e. e) a)

pub HasActive-sweep_graph :
    (now sweep : ℕ) (tenant : Bytes) (k : PinCacheKey) (g : Graph) (w : List SnapshotPin)
    → HasActive now k g w
    → HasActive now k (sweep_graph tenant sweep g) w
unfolding HasActive sweep_graph
HasActive-sweep_graph now sweep tenant k g w h n m a =
    h n (Mem-swept_pins tenant sweep g.pins n m) (
      active_before now now k g.edges (kept_edges tenant sweep g.pins g.edges) n (omega arith)
        (has_edge-kept_edges tenant sweep g.pins n.pin_name k g.edges) a)

pub HasActive-merge :
    (now : ℕ) (tenant : Bytes) (p : SnapshotPin) (k : PinCacheKey) (g : Graph)
    (w : List SnapshotPin)
    → PinsOnly tenant p g
    → k ≢ table_of tenant p
    → HasActive now k g w
    → HasActive now k (merge_edge tenant p (merge_node tenant p g)) w
unfolding HasActive PinsOnly node_of merge_node
HasActive-merge now tenant p k g w only other h n m a =
    let (t, e, x) : (same n.pin_tenant k.tenant_id ≡ true)
        × (has_edge n.pin_name k (merge_edge tenant p (merge_node tenant p g)).edges ≡ true)
        × (ltb now n.expiry ≡ true) =
      active_parts now k (merge_edge tenant p (merge_node tenant p g)).edges n a in
    let old : has_edge n.pin_name k g.edges ≡ true =
      elim (has_edge-merge_edge tenant p (merge_node tenant p g) n.pin_name k e) [
        | inl o ↦ o
        | inr is ↦ elim (other (sym is)) [ ]
      ] in
    elim (Mem-merge_node tenant p g n
      (subst (Memᴰ n) (pins-merge_edge tenant p (merge_node tenant p g)) m)) [
        | inr before ↦ h n before (active_of_parts now k g.edges n t old x)
        | inl is ↦
            elim (other (
              only k (sym (same→eq n.pin_tenant k.tenant_id t) ∙ ap (λ y. y.pin_tenant) is)
                (ap (λ y. has_edge y.pin_name k g.edges) (sym is) ∙ old))) [ ]
      ]

pub HasActive-active_pins :
    (now : ℕ) (k : PinCacheKey) (g : Graph) → HasActive now k g (active_pins now k g.edges g.pins)
unfolding HasActive
HasActive-active_pins now k g n m a = active_pins-Mem now k g.edges g.pins n m a
