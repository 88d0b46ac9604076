-- ===== src/Snapshot/Served.antt =====
-- What `ActivePinsForTable` of internal/coordination/snapshot/pin.go serves.
use neksur.Prelude.{
  ℕ, ◌≡◌, ◌≤◌, refl, sym, ap, subst, ◌∙◌, Bool, none, some, List, [], ◌∷◌, Bytes, arith, Lru, IsLru,
  Result, ok, err,
}
use neksur.Iceberg.Catalog.{TableRef}
use neksur.Snapshot.Pins.{SnapshotPin, PinCacheKey}
use neksur.Snapshot.Store.{
  PinError, PinStore, key_of, active_pins_for_table, sweep_tenant, sweep_once,
}
use neksur.Snapshot.Complete.{HasActive}
use neksur.Snapshot.Reach.{
  Step, Reach, upserts, reads, sweeps, here, next, IsComplete, IsComplete-later,
  IsComplete-sweep_once, IsComplete-upsert, Read, active_pins_for_table-Read,
}

ok_eq :
    {v w : List SnapshotPin} → ◌≡◌ {A = Result PinError (List SnapshotPin)} (ok v) (ok w) → v ≡ w
ok_eq h = cc

module _ {Cache : Type 0} (lru : Lru PinCacheKey (List SnapshotPin) Cache) (laws : IsLru lru) where
  IsComplete-Read :
      (now : ℕ) (k : PinCacheKey) (s : PinStore Cache)
      (r : Result PinError (List SnapshotPin) × PinStore Cache)
      → Read lru laws now k s.graph r
      → IsComplete lru now r.1
  unfolding Read
  IsComplete-Read now k s (ok w, t) h = h.1
  IsComplete-Read now k s (err _, t) h = h

  HasActive-Read :
      (now : ℕ) (k : PinCacheKey) (s : PinStore Cache) (w : List SnapshotPin)
      (r : Result PinError (List SnapshotPin) × PinStore Cache)
      → r.0 ≡ ok w
      → Read lru laws now k s.graph r
      → HasActive now k s.graph w
  unfolding Read
  HasActive-Read now k s w (ok v, t) e h = subst (HasActive now k s.graph) (ok_eq e) h.0
  HasActive-Read now k s w (err x, t) e h = cc

  IsComplete-Step :
      (now : ℕ) (s t : PinStore Cache)
      → IsComplete lru now s
      → Step lru now s t
      → IsComplete lru now t
  unfolding active_pins_for_table
  IsComplete-Step now s t h (upserts f tenant p only e) =
      subst (IsComplete lru now) (sym e) (IsComplete-upsert lru laws f now tenant p s only h)
  IsComplete-Step now s t h (reads fails none ref e) = subst (IsComplete lru now) (sym e) h
  IsComplete-Step now s t h (reads fails (some tenant) ref e) = subst (IsComplete lru now) (sym e) (
      IsComplete-Read now (key_of tenant ref) s
        (active_pins_for_table lru fails now (some tenant) ref s)
        (active_pins_for_table-Read lru laws fails now tenant ref s h))
  IsComplete-Step now s t h (sweeps fails tenants e) =
      subst (IsComplete lru now) (sym e) (IsComplete-sweep_once lru fails now tenants s h)

  -- With a cache that keeps the documented rules, a store whose cached lists have each active pin of
  -- their tables keeps this through every sequence of writes, reads and sweeps of the pins, failed ones
  -- among them, if a pin's name is written again only for the table that it pins.
  pub Reach-IsComplete :
      (start : ℕ) (s : PinStore Cache) (now : ℕ) (t : PinStore Cache)
      → IsComplete lru start s
      → Reach lru start s now t
      → IsComplete lru now t
  Reach-IsComplete start s now t h here = h
  Reach-IsComplete start s now t h (next {now = before} {t = u} r le step) =
      IsComplete-Step now u t
        (IsComplete-later lru before now u le (Reach-IsComplete start s before u h r)) step

  -- A read of a table's pins, at any later time, that returns a list returns one with each pin that the
  -- graph holds for the table and that has not expired, after any sequence of calls from a store whose
  -- cached lists are complete, if a pin's name is written again only for the table that it pins.
  pub read-HasActive :
      (start now later : ℕ) (s t : PinStore Cache)
      → IsComplete lru start s
      → Reach lru start s now t
      → now ≤ later
      → (fails : Bool) (tenant : Bytes) (ref : TableRef) (w : List SnapshotPin)
      → (active_pins_for_table lru fails later (some tenant) ref t).0 ≡ ok w
      → HasActive later (key_of tenant ref) t.graph w
  read-HasActive start now later s t h r le fails tenant ref w e =
      HasActive-Read later (key_of tenant ref) t w
        (active_pins_for_table lru fails later (some tenant) ref t) e
        (active_pins_for_table-Read lru laws fails later tenant ref t
          (IsComplete-later lru now later t le (Reach-IsComplete start s now t h r)))

  cache-sweep_tenant :
      (fails : Bool) (tenant : Bytes) (now : ℕ) (s : PinStore Cache)
      → (sweep_tenant fails tenant now s).1.cache ≡ s.cache
  unfolding sweep_tenant
  cache-sweep_tenant fails tenant now s = ground arith

  cache-sweep_once :
      (fails : Bytes → Bool) (now : ℕ) (tenants : List Bytes) (s : PinStore Cache)
      → (sweep_once fails now tenants s).cache ≡ s.cache
  unfolding sweep_once
  cache-sweep_once fails now [] s = refl
  cache-sweep_once fails now (t ∷ ts) s =
      cache-sweep_once fails now ts (sweep_tenant (fails t) t now s).1
      ∙ cache-sweep_tenant (fails t) t now s

  -- A table's pins that the cache holds are served after any sweep as before it, at any time, be they
  -- expired or deleted.
  pub read-sweep_once :
      (fails_sweep : Bytes → Bool) (now : ℕ) (tenants : List Bytes) (s : PinStore Cache)
      (fails : Bool) (later : ℕ) (tenant : Bytes) (ref : TableRef) (w : List SnapshotPin)
      → lru.peek (key_of tenant ref) s.cache ≡ some w
      → (active_pins_for_table lru fails later
          (some tenant)
          ref
          (sweep_once fails_sweep now tenants s)).0
        ≡ ok w
  unfolding active_pins_for_table
  read-sweep_once fails_sweep now tenants s fails later tenant ref w e =
      let held : (lru.get (key_of tenant ref) (sweep_once fails_sweep now tenants s).cache).0
          ≡ some w =
        laws.get-peek (key_of tenant ref) (sweep_once fails_sweep now tenants s).cache
        ∙ ap (lru.peek (key_of tenant ref)) (cache-sweep_once fails_sweep now tenants s)
        ∙ e in
      simp (active_pins_for_table, held) refl
