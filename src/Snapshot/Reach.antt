-- ===== src/Snapshot/Reach.antt =====
-- The calls of internal/coordination/snapshot as steps, one at a time: a step starts when the one before
-- it has returned.
use neksur.Prelude.{
  ℕ, ◌≡◌, ◌≢◌, ◌≤◌, sym, ap, subst, ◌∙◌, Bool, Option, some, List, [], ◌∷◌, Bytes, all, Bool-cases,
  Option-cases, inl, inr, Lru, IsLru, Result, ok, err,
}
use neksur.Graph.Literal.{is_safe_cypher_literal}
use neksur.Iceberg.Catalog.{TableRef}
use neksur.Snapshot.Pins.{
  SnapshotPin, PinCacheKey, Graph, same_table, table_of, merge_node, merge_edge, active_pins,
}
use neksur.Snapshot.Store.{
  PinError, UpsertFaults, PinStore, upsert_in_graph, pin_literals, upsert_snapshot_pin, key_of,
  fetch_pins, active_pins_for_table, sweep_tenant, sweep_once,
}
use neksur.Snapshot.Edges.{same_table→eq, same_table_refl}
use neksur.Snapshot.Complete.{
  HasActive, PinsOnly, HasActive-later, HasActive-sweep_graph, HasActive-merge,
  HasActive-active_pins,
}

some_eq : {a b : List SnapshotPin} → some a ≡ some b → a ≡ b
some_eq h = cc

module _ {Cache : Type 0} (lru : Lru PinCacheKey (List SnapshotPin) Cache) where
  -- A call at a time. A pin is written again only for the table that it pins.
  pub data Step (now : ℕ) (s t : PinStore Cache) : Type 0 where
    upserts :
        (f : UpsertFaults) (tenant : Bytes) (p : SnapshotPin)
        → PinsOnly tenant p s.graph
        → t ≡ (upsert_snapshot_pin lru f (some tenant) p s).1
        → Step now s t
    reads :
        (fails : Bool) (tenant : Option Bytes) (ref : TableRef)
        → t ≡ (active_pins_for_table lru fails now tenant ref s).1
        → Step now s t
    sweeps :
        (fails : Bytes → Bool) (tenants : List Bytes)
        → t ≡ sweep_once fails now tenants s
        → Step now s t

  pub data Reach (start : ℕ) (s : PinStore Cache) : ℕ → PinStore Cache → Type 0 where
    here : Reach start s start s
    next :
        {now later : ℕ} {t u : PinStore Cache}
        → Reach start s now t
        → now ≤ later
        → Step later t u
        → Reach start s later u

  -- Each list that the cache holds has each pin that is active on its table.
  unfoldable pub IsComplete : ℕ → PinStore Cache → Type 0
  IsComplete now s =
      (k : PinCacheKey) (w : List SnapshotPin)
      → lru.peek k s.cache ≡ some w
      → HasActive now k s.graph w

  pub IsComplete-later :
      (now later : ℕ) (s : PinStore Cache) → now ≤ later → IsComplete now s → IsComplete later s
  unfolding IsComplete
  IsComplete-later now later s le h k w e = HasActive-later now later k s.graph w le (h k w e)

  IsComplete-sweep_tenant :
      (fails : Bool) (tenant : Bytes) (now : ℕ) (s : PinStore Cache)
      → IsComplete now s
      → IsComplete now (sweep_tenant fails tenant now s).1
  unfolding sweep_tenant IsComplete
  IsComplete-sweep_tenant fails tenant now s h = elim (Bool-cases (is_safe_cypher_literal tenant)) [
    | inr u ↦ simp (sweep_tenant, u) h
    | inl u ↦ elim (Bool-cases fails) [
      | inl f ↦ simp (sweep_tenant, u, f) h
      | inr f ↦
          simp (sweep_tenant, u, f)
            (λ k w e. HasActive-sweep_graph now now tenant k s.graph w (h k w e))
    ]
  ]

  pub IsComplete-sweep_once :
      (fails : Bytes → Bool) (now : ℕ) (tenants : List Bytes) (s : PinStore Cache)
      → IsComplete now s
      → IsComplete now (sweep_once fails now tenants s)
  unfolding sweep_once
  IsComplete-sweep_once fails now [] s h = h
  IsComplete-sweep_once fails now (t ∷ ts) s h =
      IsComplete-sweep_once fails now ts (sweep_tenant (fails t) t now s).1
        (IsComplete-sweep_tenant (fails t) t now s h)

  module _ (laws : IsLru lru) where
    IsComplete-written :
        (now : ℕ) (tenant : Bytes) (p : SnapshotPin) (s : PinStore Cache)
        → PinsOnly tenant p s.graph
        → IsComplete now s
        → IsComplete now (record {
          graph = merge_edge tenant p (merge_node tenant p s.graph);
          cache = lru.remove (table_of tenant p) s.cache;
        })
    unfolding IsComplete
    IsComplete-written now tenant p s only h k w e =
        elim (Bool-cases (same_table k (table_of tenant p))) [
          | inl y ↦
              elim (laws.remove_self (table_of tenant p) w s.cache (
                subst (λ x. lru.peek x (lru.remove (table_of tenant p) s.cache) ≡ some w)
                  (same_table→eq k (table_of tenant p) y) e)) [ ]
          | inr y ↦
              let other : k ≢ table_of tenant p =
                (λ i. cc (same_table_refl k, ap (same_table k) i, y)) in
              HasActive-merge now tenant p k s.graph w only other
                (h k w (sym (laws.remove_other k (table_of tenant p) s.cache other) ∙ e))
        ]

    pub IsComplete-upsert :
        (f : UpsertFaults) (now : ℕ) (tenant : Bytes) (p : SnapshotPin) (s : PinStore Cache)
        → PinsOnly tenant p s.graph
        → IsComplete now s
        → IsComplete now (upsert_snapshot_pin lru f (some tenant) p s).1
    unfolding upsert_snapshot_pin upsert_in_graph
    IsComplete-upsert f now tenant p s only h =
        elim (Bool-cases (all is_safe_cypher_literal (pin_literals tenant p))) [
          | inr a ↦ simp (upsert_snapshot_pin, a) h
          | inl a ↦ elim (Bool-cases f.at_lock) [
            | inl b ↦ simp (upsert_snapshot_pin, upsert_in_graph, a, b) h
            | inr b ↦ elim (Bool-cases f.at_node) [
              | inl c ↦ simp (upsert_snapshot_pin, upsert_in_graph, a, b, c) h
              | inr c ↦ elim (Bool-cases f.at_edge) [
                | inl d ↦ simp (upsert_snapshot_pin, upsert_in_graph, a, b, c, d) h
                | inr d ↦ elim (Bool-cases f.at_commit) [
                  | inl e ↦ simp (upsert_snapshot_pin, upsert_in_graph, a, b, c, d, e) h
                  | inr e ↦
                      simp (upsert_snapshot_pin, upsert_in_graph, a, b, c, d, e)
                        (IsComplete-written now tenant p s only h)
                ]
              ]
            ]
          ]
        ]

    IsComplete-touched :
        (now : ℕ) (k : PinCacheKey) (s : PinStore Cache)
        → IsComplete now s
        → IsComplete now (record s { cache = (lru.get k s.cache).1 })
    unfolding IsComplete
    IsComplete-touched now k s h j w e = h j w (sym (laws.peek-get j k s.cache) ∙ e)

    IsComplete-fetched :
        (now : ℕ) (k : PinCacheKey) (s : PinStore Cache)
        → IsComplete now s
        → IsComplete now
            (record s { cache = lru.add k (active_pins now k s.graph.edges s.graph.pins) s.cache })
    unfolding IsComplete
    IsComplete-fetched now k s h j w e = elim (Bool-cases (same_table j k)) [
      | inl y ↦
          let i = same_table→eq j k y in
          let v : w ≡ active_pins now k s.graph.edges s.graph.pins = some_eq (
            sym e
            ∙ ap
                (λ x. lru.peek x (lru.add k (active_pins now k s.graph.edges s.graph.pins) s.cache))
                i
            ∙ laws.peek-add k (active_pins now k s.graph.edges s.graph.pins) s.cache) in
          subst (λ x. HasActive now x s.graph w) (sym i)
            (subst (HasActive now k s.graph) (sym v) (HasActive-active_pins now k s.graph))
      | inr y ↦ h j w (
          laws.add_other j k (active_pins now k s.graph.edges s.graph.pins) w s.cache
            (λ i. cc (same_table_refl j, ap (same_table j) i, y)) e)
    ]

    -- A read keeps the cache complete, and so is what it returns.
    unfoldable pub Read :
        ℕ → PinCacheKey → Graph → Result PinError (List SnapshotPin) × PinStore Cache → Type 0
    Read now k g (ok w, t) = HasActive now k g w × IsComplete now t
    Read now k g (err _, t) = IsComplete now t

    fetch_pins-Read :
        (fails : Bool) (now : ℕ) (k : PinCacheKey) (s : PinStore Cache)
        → IsComplete now s
        → Read now k s.graph (fetch_pins lru fails now k s)
    unfolding fetch_pins Read
    fetch_pins-Read fails now k s h =
        elim (Bool-cases (all is_safe_cypher_literal (k.tenant_id ∷ k.table ∷ k.namespace ∷ []))) [
          | inr u ↦ simp (fetch_pins, u) h
          | inl u ↦ elim (Bool-cases fails) [
            | inl f ↦ simp (fetch_pins, u, f) h
            | inr f ↦
                simp (fetch_pins, u, f)
                  (HasActive-active_pins now k s.graph, IsComplete-fetched now k s h)
          ]
        ]

    pub active_pins_for_table-Read :
        (fails : Bool) (now : ℕ) (tenant : Bytes) (ref : TableRef) (s : PinStore Cache)
        → IsComplete now s
        → Read now
            (key_of tenant ref)
            s.graph
            (active_pins_for_table lru fails now (some tenant) ref s)
    unfolding active_pins_for_table Read IsComplete
    active_pins_for_table-Read fails now tenant ref s h =
        elim (Option-cases (lru.get (key_of tenant ref) s.cache).0) [
          | inl e ↦
              simp (active_pins_for_table, e)
                (fetch_pins-Read fails now (key_of tenant ref)
                  (record s { cache = (lru.get (key_of tenant ref) s.cache).1 })
                  (IsComplete-touched now (key_of tenant ref) s h))
          | inr (w, e) ↦
              simp (active_pins_for_table, e)
                (
                  h (key_of tenant ref) w (sym (laws.get-peek (key_of tenant ref) s.cache) ∙ e),
                  IsComplete-touched now (key_of tenant ref) s h,
                )
        ]
