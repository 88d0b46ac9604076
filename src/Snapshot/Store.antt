-- ===== src/Snapshot/Store.antt =====
-- `PinStore` of internal/coordination/snapshot/pin.go over the graph and the cache of pin_lru.go, and
-- the sweep of pin_sweep.go. A panic is an error of its own.
use neksur.Prelude.{
  ℕ, ◌+◌, Bool, not, ◌&&◌, Option, none, some, List, [], ◌∷◌, if◌then◌else◌, Bytes, same, codes,
  join, all, Lru, Result, ok, err,
}
use neksur.Graph.Literal.{is_safe_cypher_literal}
use neksur.Iceberg.Catalog.{TableRef}
use neksur.Snapshot.Pins.{
  SnapshotPin, PinNode, PinCacheKey, PinsEdge, Graph, table_of, merge_node, merge_edge, active_pins,
  is_swept, swept_pins, has_swept,
}

pub data PinError : Type 0 where
  tenant_missing : PinError
  graph_failed : PinError
  panicked : PinError

-- Where the transaction of `UpsertSnapshotPin` fails.
pub record UpsertFaults : Type 0 where
  pub at_lock : Bool
  pub at_node : Bool
  pub at_edge : Bool
  pub at_commit : Bool

pub record PinStore (Cache : Type 0) : Type 0 where
  pub graph : Graph
  pub cache : Cache

-- The transaction: an error at any place rolls it back.
unfoldable pub upsert_in_graph : UpsertFaults → Bytes → SnapshotPin → Graph → Option Graph
unfolding merge_node merge_edge
upsert_in_graph f tenant p g =
    if f.at_lock
    then none
    else if f.at_node
    then none
    else if f.at_edge
    then none
    else if f.at_commit
    then none
    else some (merge_edge tenant p (merge_node tenant p g))

unfoldable pub pin_literals : Bytes → SnapshotPin → List Bytes
pin_literals tenant p =
    p.name ∷ p.pinned_by_principal ∷ p.at_snapshot_id ∷ p.table_name ∷ p.table_namespace ∷ tenant
    ∷ []

unfoldable pub key_of : Bytes → TableRef → PinCacheKey
unfolding join
key_of tenant ref = record {
  tenant_id = tenant;
  namespace = join (codes ".") ref.namespace;
  table = ref.name;
}

module _ {Cache : Type 0} (lru : Lru PinCacheKey (List SnapshotPin) Cache) where
  unfoldable pub upsert_snapshot_pin :
      UpsertFaults → Option Bytes → SnapshotPin → PinStore Cache → Option PinError × PinStore Cache
  unfolding upsert_in_graph pin_literals table_of is_safe_cypher_literal
  upsert_snapshot_pin f none p s = (some tenant_missing, s)
  upsert_snapshot_pin f (some tenant) p s =
      if not (all is_safe_cypher_literal (pin_literals tenant p))
      then (some panicked, s)
      else elim (upsert_in_graph f tenant p s.graph) [
        | none ↦ (some graph_failed, s)
        | some g ↦ (none, record { graph = g; cache = lru.remove (table_of tenant p) s.cache })
      ]

  -- Behind a miss.
  unfoldable pub fetch_pins :
      Bool → ℕ → PinCacheKey → PinStore Cache → Result PinError (List SnapshotPin) × PinStore Cache
  unfolding active_pins is_safe_cypher_literal
  fetch_pins fails now k s =
      if not (all is_safe_cypher_literal (k.tenant_id ∷ k.table ∷ k.namespace ∷ []))
      then (err panicked, s)
      else if fails
      then (err graph_failed, s)
      else (
        ok (active_pins now k s.graph.edges s.graph.pins),
        record s { cache = lru.add k (active_pins now k s.graph.edges s.graph.pins) s.cache },
      )

  unfoldable pub active_pins_for_table :
      Bool
      → ℕ
      → Option Bytes
      → TableRef
      → PinStore Cache
      → Result PinError (List SnapshotPin) × PinStore Cache
  unfolding fetch_pins key_of
  active_pins_for_table fails now none ref s = (err tenant_missing, s)
  active_pins_for_table fails now (some tenant) ref s =
      elim (lru.get (key_of tenant ref) s.cache).0 [
        | some cached ↦ (ok cached, record s { cache = (lru.get (key_of tenant ref) s.cache).1 })
        | none ↦
            fetch_pins fails now (key_of tenant ref)
              (record s { cache = (lru.get (key_of tenant ref) s.cache).1 })
      ]

-- `DETACH`: the edges of the pins that are deleted go with them.
unfoldable pub kept_edges : Bytes → ℕ → List PinNode → List PinsEdge → List PinsEdge
unfolding has_swept
kept_edges tenant now ns [] = []
kept_edges tenant now ns (e ∷ es) =
    let rest = kept_edges tenant now ns es in
    if same e.target.tenant_id tenant && has_swept tenant now e.pin ns then rest else e ∷ rest

unfoldable pub sweep_graph : Bytes → ℕ → Graph → Graph
unfolding swept_pins kept_edges
sweep_graph tenant now g = record g {
  pins = swept_pins tenant now g.pins;
  edges = kept_edges tenant now g.pins g.edges;
}

unfoldable pub count_swept : Bytes → ℕ → List PinNode → ℕ
unfolding is_swept
count_swept tenant now [] = 0
count_swept tenant now (n ∷ ns) =
    let rest = count_swept tenant now ns in if is_swept tenant now n then 1 + rest else rest

-- The cache is not touched.
unfoldable pub sweep_tenant :
    {Cache : Type 0} → Bool → Bytes → ℕ → PinStore Cache → Result PinError ℕ × PinStore Cache
unfolding sweep_graph count_swept is_safe_cypher_literal
sweep_tenant fails tenant now s =
    if not (is_safe_cypher_literal tenant)
    then (err panicked, s)
    else if fails
    then (err graph_failed, s)
    else (
      ok (count_swept tenant now s.graph.pins),
      record s { graph = sweep_graph tenant now s.graph },
    )

-- The loop over the tenants: an error of one does not stop it, and none is returned. `fails` says for
-- which tenant the graph fails.
unfoldable pub sweep_once :
    {Cache : Type 0} → (Bytes → Bool) → ℕ → List Bytes → PinStore Cache → PinStore Cache
unfolding sweep_tenant
sweep_once fails now [] s = s
sweep_once fails now (tenant ∷ tenants) s =
    sweep_once fails now tenants (sweep_tenant (fails tenant) tenant now s).1
