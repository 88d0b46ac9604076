-- ===== src/Snapshot/Written.antt =====
-- A pin that `UpsertSnapshotPin` of internal/coordination/snapshot/pin.go has written, read again.
use mathlib.Core.List.{Memᴰ}
use neksur.Prelude.{
  ℕ, ◌≡◌, ◌≤◌, refl, sym, subst, true, false, none, some, List, [], ◌∷◌, ltb, Bytes, same_refl, all,
  arith, Bool-cases, Option-cases, inl, inr, Lru, IsLru, ok,
}
use neksur.Graph.Literal.{is_safe_cypher_literal}
use neksur.Iceberg.Catalog.{TableRef}
use neksur.Snapshot.Pins.{
  SnapshotPin, PinNode, PinCacheKey, Graph, is_pin, has_pin, has_table, has_edge, node_of, table_of,
  set_pins, active_pins, merge_node, merge_edge, pin_of, is_active,
}
use neksur.Snapshot.Store.{
  UpsertFaults, PinStore, upsert_in_graph, pin_literals, upsert_snapshot_pin, key_of, fetch_pins,
  active_pins_for_table,
}
use neksur.Snapshot.Edges.{same_table_refl, pins-merge_edge}
use neksur.Snapshot.Complete.{HasActive, PinsOnly, active_of_parts}
use neksur.Snapshot.Reach.{IsComplete, IsComplete-upsert, here}
use neksur.Snapshot.Served.{read-HasActive}

is_pin-node_of : (tenant : Bytes) (p : SnapshotPin) → is_pin tenant p.name (node_of tenant p) ≡ true
unfolding is_pin node_of
is_pin-node_of tenant p = rw (same_refl tenant, same_refl p.name) refl

node_of-set_pins :
    (tenant : Bytes) (p : SnapshotPin) (ns : List PinNode)
    → has_pin tenant p.name ns ≡ true
    → Memᴰ (node_of tenant p) (set_pins tenant p ns)
unfolding has_pin set_pins
node_of-set_pins tenant p [] h = cc
node_of-set_pins tenant p (n ∷ ns) h = elim (Bool-cases (is_pin tenant p.name n)) [
  | inl y ↦ rw y (Memᴰ.head refl)
  | inr y ↦ rw y (Memᴰ.tail (node_of-set_pins tenant p ns (rw y at h)))
]

has_pin-set_pins :
    (tenant : Bytes) (p : SnapshotPin) (ns : List PinNode)
    → has_pin tenant p.name ns ≡ true
    → has_pin tenant p.name (set_pins tenant p ns) ≡ true
unfolding has_pin set_pins
has_pin-set_pins tenant p [] h = h
has_pin-set_pins tenant p (n ∷ ns) h = elim (Bool-cases (is_pin tenant p.name n)) [
  | inl y ↦ rw (y, is_pin-node_of tenant p) refl
  | inr y ↦ rw (y, y) (has_pin-set_pins tenant p ns (rw y at h))
]

merged :
    (tenant : Bytes) (p : SnapshotPin) (g : Graph)
    → Memᴰ (node_of tenant p) (merge_node tenant p g).pins
      × (has_pin tenant p.name (merge_node tenant p g).pins ≡ true)
unfolding merge_node has_pin
merged tenant p g = elim (Bool-cases (has_pin tenant p.name g.pins)) [
  | inl y ↦ rw y (node_of-set_pins tenant p g.pins y, has_pin-set_pins tenant p g.pins y)
  | inr y ↦ rw y (Memᴰ.head refl, rw (is_pin-node_of tenant p) refl)
]

-- With both nodes there, the edge is there after its `MERGE`.
has_edge-merged :
    (tenant : Bytes) (p : SnapshotPin) (g : Graph)
    → has_pin tenant p.name g.pins ≡ true
    → has_table (table_of tenant p) g.tables ≡ true
    → has_edge p.name (table_of tenant p) (merge_edge tenant p g).edges ≡ true
unfolding merge_edge has_edge
has_edge-merged tenant p g a b = elim (Bool-cases (has_edge p.name (table_of tenant p) g.edges)) [
  | inl y ↦ simp (merge_edge, a, b, y) refl
  | inr y ↦ simp (merge_edge, a, b, y, same_refl p.name, same_table_refl (table_of tenant p)) refl
]

module _ {Cache : Type 0} (lru : Lru PinCacheKey (List SnapshotPin) Cache) where
  graph-upsert :
      (f : UpsertFaults) (tenant : Bytes) (p : SnapshotPin) (s : PinStore Cache)
      → (upsert_snapshot_pin lru f (some tenant) p s).0 ≡ none
      → (upsert_snapshot_pin lru f (some tenant) p s).1.graph
        ≡ merge_edge tenant p (merge_node tenant p s.graph)
  unfolding upsert_snapshot_pin upsert_in_graph
  graph-upsert f tenant p s h = ground arith

  safe-upsert :
      (f : UpsertFaults) (tenant : Bytes) (p : SnapshotPin) (s : PinStore Cache)
      → (upsert_snapshot_pin lru f (some tenant) p s).0 ≡ none
      → all is_safe_cypher_literal (tenant ∷ p.table_name ∷ p.table_namespace ∷ []) ≡ true
  unfolding upsert_snapshot_pin pin_literals
  safe-upsert f tenant p s h = ground arith

  -- Without a failure of the graph, a read of a table with a safe name returns a list.
  read_returns :
      (now : ℕ) (tenant : Bytes) (ref : TableRef) (k : PinCacheKey) (s : PinStore Cache)
      → key_of tenant ref ≡ k
      → all is_safe_cypher_literal (k.tenant_id ∷ k.table ∷ k.namespace ∷ []) ≡ true
      → (w : List SnapshotPin) × ((active_pins_for_table lru false now (some tenant) ref s).0
          ≡ ok w)
  unfolding active_pins_for_table fetch_pins
  read_returns now tenant ref k s e a =
      elim (Option-cases (lru.get (key_of tenant ref) s.cache).0) [
        | inr (w, hit) ↦ (w, simp (active_pins_for_table, hit) refl)
        | inl miss ↦
            let b : all is_safe_cypher_literal (
                  (key_of tenant ref).tenant_id
                  ∷ (key_of tenant ref).table
                  ∷ (key_of tenant ref).namespace
                  ∷ [])
                ≡ true =
              subst
                (λ x. all is_safe_cypher_literal (x.tenant_id ∷ x.table ∷ x.namespace ∷ []) ≡ true)
                (sym e) a in
            (
              active_pins now (key_of tenant ref) s.graph.edges s.graph.pins,
              simp (active_pins_for_table, fetch_pins, miss, b) refl,
            )
      ]

  written_is_active :
      (now : ℕ) (tenant : Bytes) (p : SnapshotPin) (g : Graph)
      → has_table (table_of tenant p) g.tables ≡ true
      → ltb now p.expiry_utc ≡ true
      → is_active now
          (table_of tenant p)
          (merge_edge tenant p (merge_node tenant p g)).edges
          (node_of tenant p)
        ≡ true
  unfolding node_of table_of merge_node
  written_is_active now tenant p g table x =
      active_of_parts now (table_of tenant p) (merge_edge tenant p (merge_node tenant p g)).edges
        (node_of tenant p) (same_refl tenant)
        (has_edge-merged tenant p (merge_node tenant p g) (merged tenant p g).1 table) x

  written_is_listed :
      (later : ℕ) (tenant : Bytes) (p : SnapshotPin) (k : PinCacheKey) (g t : Graph)
      (w : List SnapshotPin)
      → k ≡ table_of tenant p
      → t ≡ merge_edge tenant p (merge_node tenant p g)
      → has_table (table_of tenant p) g.tables ≡ true
      → ltb later p.expiry_utc ≡ true
      → HasActive later k t w
      → Memᴰ p w
  unfolding HasActive pin_of node_of table_of
  written_is_listed later tenant p k g t w key e table x h =
      let all_active : HasActive later (table_of tenant p)
          (merge_edge tenant p (merge_node tenant p g)) w =
        subst (λ y. HasActive later y (merge_edge tenant p (merge_node tenant p g)) w) key
          (subst (λ y. HasActive later k y w) e h) in
      all_active (node_of tenant p)
        (subst (Memᴰ (node_of tenant p)) (sym (pins-merge_edge tenant p (merge_node tenant p g)))
          (merged tenant p g).0)
        (written_is_active later tenant p g table x)

  -- After a write of a pin that succeeds, for a table that the graph knows, a read of that table before
  -- the pin expires, for which the graph does not fail, returns a list that has the pin as it was
  -- written, if the cached lists were complete before and the name pinned no other table.
  pub read-upsert_snapshot_pin :
      (laws : IsLru lru) (f : UpsertFaults) (tenant : Bytes) (p : SnapshotPin) (ref : TableRef)
      (now later : ℕ) (s : PinStore Cache)
      → IsComplete lru now s
      → PinsOnly tenant p s.graph
      → has_table (table_of tenant p) s.graph.tables ≡ true
      → (upsert_snapshot_pin lru f (some tenant) p s).0 ≡ none
      → key_of tenant ref ≡ table_of tenant p
      → now ≤ later
      → ltb later p.expiry_utc ≡ true
      → (w : List SnapshotPin) × ((active_pins_for_table lru false later
            (some tenant)
            ref
            (upsert_snapshot_pin lru f (some tenant) p s).1).0
          ≡ ok w)
        × Memᴰ p w
  unfolding table_of
  read-upsert_snapshot_pin laws f tenant p ref now later s h only table written key le x =
      let t = (upsert_snapshot_pin lru f (some tenant) p s).1 in
      let (w, e) : (w : List SnapshotPin) × ((active_pins_for_table lru false later (some tenant)
              ref t).0
            ≡ ok w) =
        read_returns later tenant ref (table_of tenant p) t key
          (safe-upsert f tenant p s written) in
      (
        w,
        e,
        written_is_listed later tenant p (key_of tenant ref) s.graph t.graph w key
            (graph-upsert f tenant p s written) table x
            (read-HasActive lru laws now now later t t
              (IsComplete-upsert lru laws f now tenant p s only h) here le false tenant ref w e),
      )
