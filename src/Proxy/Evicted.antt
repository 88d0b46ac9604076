-- ===== src/Proxy/Evicted.antt =====
-- What `Invalidate` of internal/sqlproxy/cache.go leaves in the cache.
use neksur.Prelude.{
  and_left, and_right, ◌≡◌, ◌≢◌, ap, same_refl, refl, sym, ◌∙◌, Bool, true, false, ◌&&◌, ◌||◌,
  Option, none, some, List, [], ◌∷◌, if◌then◌else◌, Bytes, same, same→eq, Bool-cases, Option-cases,
  inl, inr,
}
use neksur.Inject.Model.{CacheKey, ArtifactEntry}
use neksur.Proxy.Eviction.{is_evicted, remove_keys, invalidate}

-- Go's `==` on cache keys.
abbrev pub same_key : CacheKey → CacheKey → Bool
same_key a b =
    same a.tenant_id b.tenant_id
    && (same a.key_table b.key_table
        && (same a.key_namespace b.key_namespace && same a.engine b.engine))

abbrev pub has_key : CacheKey → List CacheKey → Bool
has_key k [] = false
has_key k (j ∷ js) = same_key k j || has_key k js

is_evicted-same :
    (tid table : Bytes) (k j : CacheKey)
    → same_key k j ≡ true
    → is_evicted tid table k ≡ is_evicted tid table j
unfolding is_evicted
is_evicted-same tid table k j h =
    let t = same→eq k.tenant_id j.tenant_id (and_left (same k.tenant_id j.tenant_id) _ h) in
    let n =
      same→eq k.key_table j.key_table (
        and_left (same k.key_table j.key_table) _ (and_right (same k.tenant_id j.tenant_id) _ h)) in
    rw (t, n) refl

same-differs : (s t : Bytes) → same s t ≡ false → s ≢ t
same-differs s t n e = cc (n, ap (same s) e, same_refl s)

-- What an eviction of a tenant's table does to what is found under a key.
pub data AfterEviction (tid table : Bytes) (k : CacheKey) (before after : Option ArtifactEntry)
    : Type 0 where
  evicted :
      k.tenant_id ≡ tid
      → k.key_table ≡ table
      → after ≡ none
      → AfterEviction tid table k before after
  kept_tenant : k.tenant_id ≢ tid → after ≡ before → AfterEviction tid table k before after
  kept_table : k.key_table ≢ table → after ≡ before → AfterEviction tid table k before after

module _ {Cache : Type 0} (look : CacheKey → Cache → Option ArtifactEntry)
    (keys : Cache → List CacheKey) (remove : CacheKey → Cache → Cache)
    (keys_complete : (k : CacheKey) (c : Cache) (e : ArtifactEntry)
      → look k c ≡ some e
      → has_key k (keys c) ≡ true)
    (remove_same : (k j : CacheKey) (c : Cache) → same_key k j ≡ true → look k (remove j c) ≡ none)
    (remove_other : (k j : CacheKey) (c : Cache)
      → same_key k j ≡ false
      → look k (remove j c) ≡ look k c) where
  absent_stays :
      (tid table : Bytes) (k : CacheKey) (js : List CacheKey) (c : Cache)
      → look k c ≡ none
      → look k (remove_keys remove tid table js c) ≡ none
  unfolding remove_keys
  absent_stays tid table k [] c h = h
  absent_stays tid table k (j ∷ js) c h = elim (Bool-cases (is_evicted tid table j)) [
    | inr e ↦ rw e (absent_stays tid table k js c h)
    | inl e ↦ rw e (
        absent_stays tid table k js (remove j c) (elim (Bool-cases (same_key k j)) [
          | inl s ↦ remove_same k j c s
          | inr s ↦ remove_other k j c s ∙ h
        ]))
  ]

  others_stay :
      (tid table : Bytes) (k : CacheKey) (js : List CacheKey) (c : Cache)
      → is_evicted tid table k ≡ false
      → look k (remove_keys remove tid table js c) ≡ look k c
  unfolding remove_keys
  others_stay tid table k [] c h = refl
  others_stay tid table k (j ∷ js) c h = elim (Bool-cases (is_evicted tid table j)) [
    | inr e ↦ rw e (others_stay tid table k js c h)
    | inl e ↦ rw e (
        others_stay tid table k js (remove j c) h ∙ (elim (Bool-cases (same_key k j)) [
          | inl s ↦ cc (sym h, is_evicted-same tid table k j s, e)
          | inr s ↦ remove_other k j c s
        ]))
  ]

  listed_leaves :
      (tid table : Bytes) (k : CacheKey) (js : List CacheKey) (c : Cache)
      → is_evicted tid table k ≡ true
      → has_key k js ≡ true
      → look k (remove_keys remove tid table js c) ≡ none
  unfolding remove_keys
  listed_leaves tid table k [] c h m = cc
  listed_leaves tid table k (j ∷ js) c h m = elim (Bool-cases (same_key k j)) [
    | inl s ↦
        rw (sym (is_evicted-same tid table k j s) ∙ h)
          (absent_stays tid table k js (remove j c) (remove_same k j c s))
    | inr s ↦
        listed_leaves tid table k js (if is_evicted tid table j then remove j c else c) h
          (rw s at m)
  ]

  other_part :
      (tid table : Bytes) (k : CacheKey) (c : Cache)
      → is_evicted tid table k ≡ false
      → look k (invalidate keys remove tid table c) ≡ look k c
  unfolding invalidate
  other_part tid table k c h = others_stay tid table k (keys c) c h

  -- If `Keys` lists every key that is found, and `Remove` removes that key alone, then after an
  -- eviction a key of that tenant and table is not found, whatever its namespace and engine, and a
  -- key of another tenant or of another table is found as before.
  pub look-invalidate :
      (tid table : Bytes) (k : CacheKey) (c : Cache)
      → AfterEviction tid table k (look k c) (look k (invalidate keys remove tid table c))
  unfolding invalidate is_evicted
  look-invalidate tid table k c = elim (Bool-cases (same k.tenant_id tid)) [
    | inr n ↦
        kept_tenant (same-differs k.tenant_id tid n)
          (other_part tid table k c (rw (is_evicted, n) refl))
    | inl y ↦ elim (Bool-cases (same k.key_table table)) [
      | inr n ↦
          kept_table (same-differs k.key_table table n)
            (other_part tid table k c (rw (is_evicted, y, n) refl))
      | inl z ↦
          evicted (same→eq k.tenant_id tid y) (same→eq k.key_table table z)
            (elim (Option-cases (look k c)) [
              | inl h ↦ absent_stays tid table k (keys c) c h
              | inr (entry, h) ↦
                  listed_leaves tid table k (keys c) c (rw (is_evicted, y, z) refl)
                    (keys_complete k c entry h)
            ])
    ]
  ]
