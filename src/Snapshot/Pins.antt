-- ===== src/Snapshot/Pins.antt =====
-- The graph that internal/coordination/snapshot/pin.go and pin_sweep.go keep. A time is a number of
-- seconds: the code writes RFC 3339 text in UTC, to the second, which compares as the times do.
use neksur.Prelude.{ℕ, Bool, false, not, ◌&&◌, ◌||◌, List, [], ◌∷◌, if◌then◌else◌, Bytes, same, ltb}

pub record SnapshotPin : Type 0 where
  pub name : Bytes
  pub pinned_by_principal : Bytes
  pub at_snapshot_id : Bytes
  pub pinned_at : ℕ
  pub expiry_utc : ℕ
  pub table_name : Bytes
  pub table_namespace : Bytes

-- A node `SnapshotPin` of the graph.
pub record PinNode : Type 0 where
  pub pin_tenant : Bytes
  pub pin_name : Bytes
  pub pinned_by : Bytes
  pub at_snap : Bytes
  pub created : ℕ
  pub expiry : ℕ

pub record PinCacheKey : Type 0 where
  pub tenant_id : Bytes
  pub namespace : Bytes
  pub table : Bytes

-- An edge `PINS` from a pin, named by its tenant and name, to a table.
pub record PinsEdge : Type 0 where
  pub pin : Bytes
  pub target : PinCacheKey

pub record Graph : Type 0 where
  pub pins : List PinNode
  pub tables : List PinCacheKey
  pub edges : List PinsEdge

unfoldable pub same_table : PinCacheKey → PinCacheKey → Bool
same_table j k =
    same j.tenant_id k.tenant_id && same j.namespace k.namespace && same j.table k.table

unfoldable pub is_pin : Bytes → Bytes → PinNode → Bool
is_pin tenant name n = same n.pin_tenant tenant && same n.pin_name name

unfoldable pub has_pin : Bytes → Bytes → List PinNode → Bool
unfolding is_pin
has_pin tenant name [] = false
has_pin tenant name (n ∷ ns) = is_pin tenant name n || has_pin tenant name ns

unfoldable pub has_table : PinCacheKey → List PinCacheKey → Bool
unfolding same_table
has_table k [] = false
has_table k (j ∷ js) = same_table j k || has_table k js

unfoldable pub is_edge : Bytes → PinCacheKey → PinsEdge → Bool
unfolding same_table
is_edge name k e = same e.pin name && same_table e.target k

unfoldable pub has_edge : Bytes → PinCacheKey → List PinsEdge → Bool
unfolding is_edge
has_edge name k [] = false
has_edge name k (e ∷ es) = is_edge name k e || has_edge name k es

unfoldable pub node_of : Bytes → SnapshotPin → PinNode
node_of tenant p = record {
  pin_tenant = tenant;
  pin_name = p.name;
  pinned_by = p.pinned_by_principal;
  at_snap = p.at_snapshot_id;
  created = p.pinned_at;
  expiry = p.expiry_utc;
}

unfoldable pub table_of : Bytes → SnapshotPin → PinCacheKey
table_of tenant p = record {
  tenant_id = tenant;
  namespace = p.table_namespace;
  table = p.table_name;
}

-- `SET`, on each node that the pattern matches.
unfoldable pub set_pins : Bytes → SnapshotPin → List PinNode → List PinNode
unfolding is_pin node_of
set_pins tenant p [] = []
set_pins tenant p (n ∷ ns) =
    (if is_pin tenant p.name n then node_of tenant p else n) ∷ set_pins tenant p ns

-- `MERGE (sp:SnapshotPin ...) SET ...`: the node is made if there is none.
unfoldable pub merge_node : Bytes → SnapshotPin → Graph → Graph
unfolding has_pin set_pins node_of
merge_node tenant p g = record g {
  pins =
      if has_pin tenant p.name g.pins then set_pins tenant p g.pins else node_of tenant p ∷ g.pins;
}

-- `MATCH (sp ...), (t:Table ...) MERGE (sp)-[:PINS]->(t)`: nothing without the two nodes, and no
-- second edge between them.
unfoldable pub merge_edge : Bytes → SnapshotPin → Graph → Graph
unfolding has_pin has_table has_edge table_of
merge_edge tenant p g =
    if not (has_pin tenant p.name g.pins && has_table (table_of tenant p) g.tables)
    then g
    else if has_edge p.name (table_of tenant p) g.edges
    then g
    else record g { edges = record { pin = p.name; target = table_of tenant p } ∷ g.edges }

unfoldable pub pin_of : PinCacheKey → PinNode → SnapshotPin
pin_of k n = record {
  name = n.pin_name;
  pinned_by_principal = n.pinned_by;
  at_snapshot_id = n.at_snap;
  pinned_at = n.created;
  expiry_utc = n.expiry;
  table_name = k.table;
  table_namespace = k.namespace;
}

unfoldable pub is_active : ℕ → PinCacheKey → List PinsEdge → PinNode → Bool
unfolding has_edge
is_active now k es n = same n.pin_tenant k.tenant_id && has_edge n.pin_name k es && ltb now n.expiry

-- The rows of `MATCH (sp)-[:PINS]->(t) WHERE sp.expiry_utc > now RETURN ...`.
unfoldable pub active_pins : ℕ → PinCacheKey → List PinsEdge → List PinNode → List SnapshotPin
unfolding is_active pin_of
active_pins now k es [] = []
active_pins now k es (n ∷ ns) =
    if is_active now k es n then pin_of k n ∷ active_pins now k es ns else active_pins now k es ns

unfoldable pub is_swept : Bytes → ℕ → PinNode → Bool
is_swept tenant now n = same n.pin_tenant tenant && ltb n.expiry now

-- `DETACH DELETE sp`, of the pins that a test does not keep.
unfoldable pub swept_pins : Bytes → ℕ → List PinNode → List PinNode
unfolding is_swept
swept_pins tenant now [] = []
swept_pins tenant now (n ∷ ns) =
    let rest = swept_pins tenant now ns in if is_swept tenant now n then rest else n ∷ rest

-- The name is that of a pin of the tenant that the sweep deletes.
unfoldable pub has_swept : Bytes → ℕ → Bytes → List PinNode → Bool
unfolding is_swept
has_swept tenant now name [] = false
has_swept tenant now name (n ∷ ns) =
    (is_swept tenant now n && same n.pin_name name) || has_swept tenant now name ns
