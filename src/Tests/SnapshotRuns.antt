-- ===== src/Tests/SnapshotRuns.antt =====
-- internal/coordination/snapshot, on a small graph and a cache without a bound.
use mathlib.Core.List.{Memᴰ}
use neksur.Prelude.{
  ℕ, ◌≡◌, ◌≢◌, refl, Bool, false, Option, none, some, List, [], ◌∷◌, ◌++◌, if◌then◌else◌, Bytes,
  codes, arith, ◌==◌, Lru, IsLru, ok,
}
use neksur.Graph.Literal.{is_byte_of, sanitize_cypher_literal}
use neksur.Graph.ReadBack.{
  ReadsLiterals, Sanitized, sanitize_cypher_literal-Sanitized, sanitize_read_back,
}
use neksur.Iceberg.Catalog.{TableRef}
use neksur.Snapshot.Pins.{SnapshotPin, PinCacheKey, same_table, has_edge, table_of, active_pins}
use neksur.Snapshot.Store.{
  panicked, UpsertFaults, PinStore, upsert_snapshot_pin, key_of, active_pins_for_table, sweep_once,
}
use neksur.Snapshot.Edges.{same_table→eq, same_table_refl}
use neksur.Snapshot.Complete.{HasActive, PinsOnly}
use neksur.Snapshot.Reach.{Reach, upserts, reads, sweeps, here, next, IsComplete}
use neksur.Snapshot.Served.{Reach-IsComplete, read-HasActive, read-sweep_once}
use neksur.Tests.Assoc.{Assoc, found, without, assoc, assoc-IsLru}
use neksur.Snapshot.Written.{read-upsert_snapshot_pin}

-- A reader without escapes.
literal_reader : Bytes → Option (Bytes × Bytes)
literal_reader [] = none
literal_reader (c ∷ s) =
    if c == b'\''
    then some ([], s)
    else elim (literal_reader s) [ none ↦ none | some (t, rest) ↦ some (c ∷ t, rest) ]

differs : (c k : ℕ) → c ≢ k → (c == k) ≡ false
differs c k n = ground arith

literal_reader-ReadsLiterals : ReadsLiterals literal_reader
unfolding literal_reader
literal_reader-ReadsLiterals = record {
  at_quote = λ rest. refl;
  at_plain = λ c s t rest q b e. rw (differs c b'\'' q, e) refl;
}

abbrev Held : Type 0
Held = Assoc PinCacheKey (List SnapshotPin)

abbrev lru : Lru PinCacheKey (List SnapshotPin) Held
lru = assoc same_table

lru-IsLru : IsLru lru
lru-IsLru = assoc-IsLru same_table same_table→eq same_table_refl

abbrev acme : Bytes
acme = codes "acme"

abbrev orders : TableRef
orders = record { namespace = codes "shop" ∷ []; name = codes "orders" }

abbrev freeze : SnapshotPin
freeze = record {
  name = codes "p-1";
  pinned_by_principal = codes "ada";
  at_snapshot_id = codes "77";
  pinned_at = 1;
  expiry_utc = 50;
  table_name = codes "orders";
  table_namespace = codes "shop";
}

abbrev no_faults : UpsertFaults
no_faults = record { at_lock = false; at_node = false; at_edge = false; at_commit = false }

abbrev empty : PinStore Held
empty = record {
  graph = record { pins = []; tables = table_of acme freeze ∷ []; edges = [] };
  cache = [];
}

abbrev frozen : PinStore Held
frozen = (upsert_snapshot_pin lru no_faults (some acme) freeze empty).1

abbrev served : PinStore Held
served = (active_pins_for_table lru false 5 (some acme) orders frozen).1

abbrev all_works : Bytes → Bool
all_works _ = false

abbrev swept : PinStore Held
swept = sweep_once all_works 60 (acme ∷ []) served

served_list : (active_pins_for_table lru false 5 (some acme) orders frozen).0 ≡ ok (freeze ∷ [])
unfolding active_pins_for_table upsert_snapshot_pin found without
served_list = refl

no_pins_left : swept.graph.pins ≡ []
unfolding active_pins_for_table upsert_snapshot_pin found without sweep_once
no_pins_left = refl

-- A pin with an unsafe name is refused.
unsafe_refused :
    (upsert_snapshot_pin lru no_faults (some acme) (record freeze { name = codes "p'1" }) empty).0
    ≡ some panicked
unfolding upsert_snapshot_pin
unsafe_refused = refl

-- Written for a second table, a pin is an active pin of both.
moved_pins_both :
    (active_pins 5
      (key_of acme orders)
      (upsert_snapshot_pin lru no_faults
        (some acme)
        (record freeze { table_name = codes "lines" })
        (record frozen {
          graph = record frozen.graph {
            tables =
                table_of acme (record freeze { table_name = codes "lines" })
                ∷ table_of acme freeze
                ∷ [];
          };
        })).1.graph.edges
      frozen.graph.pins)
    ≡ freeze ∷ []
unfolding active_pins upsert_snapshot_pin key_of
moved_pins_both = refl

empty-IsComplete : (now : ℕ) → IsComplete lru now empty
unfolding IsComplete HasActive
empty-IsComplete now k w e n m a = elim m [ ]

empty-PinsOnly : PinsOnly acme freeze empty.graph
unfolding PinsOnly has_edge
empty-PinsOnly k e h = cc

first_steps : Reach lru 1 empty 1 frozen
first_steps = next here (omega arith) (upserts no_faults acme freeze empty-PinsOnly refl)

steps : Reach lru 1 empty 60 swept
steps =
    next {now = 5} (next {now = 1} first_steps (omega arith) (reads false (some acme) orders refl))
      (omega arith) (sweeps all_works (acme ∷ []) refl)

sanitize_read_back_example :
    (literal_reader (codes "urn:t/a-1" ++ (b'\'' ∷ codes "}"))
      ≡ some (codes "urn:t/a-1", codes "}"))
    × (is_byte_of b'$' (codes "urn:t/a-1") ≡ false)
unfolding sanitize_cypher_literal
sanitize_read_back_example =
    sanitize_read_back literal_reader literal_reader-ReadsLiterals (codes "urn:t/a-1")
      (codes "urn:t/a-1") (codes "}") refl

sanitize_cypher_literal-Sanitized_example :
    Sanitized (codes "a'b") (sanitize_cypher_literal (codes "a'b"))
sanitize_cypher_literal-Sanitized_example = sanitize_cypher_literal-Sanitized (codes "a'b")

Reach-IsComplete_example : IsComplete lru 60 swept
Reach-IsComplete_example =
    Reach-IsComplete lru lru-IsLru 1 empty 60 swept (empty-IsComplete 1) steps

read-HasActive_example : HasActive 5 (key_of acme orders) frozen.graph (freeze ∷ [])
read-HasActive_example =
    read-HasActive lru lru-IsLru 1 1 5 empty frozen (empty-IsComplete 1) first_steps (omega arith)
      false acme orders (freeze ∷ []) served_list

read-sweep_once_example :
    (active_pins_for_table lru false 70
      (some acme)
      orders
      (sweep_once all_works 60 (acme ∷ []) served)).0
    ≡ ok (freeze ∷ [])
unfolding active_pins_for_table upsert_snapshot_pin found without
read-sweep_once_example =
    read-sweep_once lru lru-IsLru all_works 60 (acme ∷ []) served false 70 acme orders (freeze ∷ [])
      refl

read-upsert_snapshot_pin_example :
    (w : List SnapshotPin) × ((active_pins_for_table lru false 5 (some acme) orders frozen).0
      ≡ ok w)
    × Memᴰ freeze w
unfolding key_of table_of upsert_snapshot_pin
read-upsert_snapshot_pin_example =
    read-upsert_snapshot_pin lru lru-IsLru no_faults acme freeze orders 1 5 empty
      (empty-IsComplete 1) empty-PinsOnly refl refl refl (omega arith) refl
