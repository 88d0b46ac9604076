-- ===== src/Proxy/Eviction.antt =====
-- `Invalidate` of internal/sqlproxy/cache.go. `Keys` and `Remove` are golang-lru's.
use neksur.Prelude.{Bool, ◌&&◌, List, [], ◌∷◌, if◌then◌else◌, Bytes, same}
use neksur.Inject.Model.{CacheKey}

unfoldable pub is_evicted : Bytes → Bytes → CacheKey → Bool
is_evicted tenant_id table_id k = same k.tenant_id tenant_id && same k.key_table table_id

-- The loop over the snapshot of the keys.
unfoldable pub remove_keys :
    {Cache : Type 0} → (CacheKey → Cache → Cache) → Bytes → Bytes → List CacheKey → Cache → Cache
unfolding is_evicted
remove_keys remove tenant_id table_id [] c = c
remove_keys remove tenant_id table_id (k ∷ ks) c =
    remove_keys remove tenant_id table_id ks
      (if is_evicted tenant_id table_id k then remove k c else c)

unfoldable pub invalidate :
    {Cache : Type 0}
    → (Cache → List CacheKey)
    → (CacheKey → Cache → Cache)
    → Bytes
    → Bytes
    → Cache
    → Cache
unfolding remove_keys
invalidate keys remove tenant_id table_id c = remove_keys remove tenant_id table_id (keys c) c
