-- ===== src/Prelude/Caches.antt =====
-- What the code relies on of github.com/hashicorp/golang-lru/v2. `Get` moves the entry to the front,
-- so it returns a cache; `Peek` does not. `Add` may evict other keys.
use mathlib.Core.Path.{◌≡◌}
use mathlib.Core.Logic.{◌≢◌}
use mathlib.Core.Option.{Option, some}

pub record Lru (K V Cache : Type 0) : Type 0 where
  pub get : K → Cache → Option V × Cache
  pub peek : K → Cache → Option V
  pub add : K → V → Cache → Cache
  pub remove : K → Cache → Cache

pub record IsLru {K V Cache : Type 0} (lru : Lru K V Cache) : Type 0 where
  pub get-peek : (k : K) (c : Cache) → (lru.get k c).0 ≡ lru.peek k c
  pub peek-get : (j k : K) (c : Cache) → lru.peek j (lru.get k c).1 ≡ lru.peek j c
  pub peek-add : (k : K) (v : V) (c : Cache) → lru.peek k (lru.add k v c) ≡ some v
  pub add_other :
      (j k : K) (v w : V) (c : Cache)
      → j ≢ k
      → lru.peek j (lru.add k v c) ≡ some w
      → lru.peek j c ≡ some w
  pub remove_self : (k : K) (w : V) (c : Cache) → lru.peek k (lru.remove k c) ≢ some w
  pub remove_other : (j k : K) (c : Cache) → j ≢ k → lru.peek j (lru.remove k c) ≡ lru.peek j c
