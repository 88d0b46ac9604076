-- ===== src/Credvend/Cache.antt =====
-- internal/credvend/cache.go. `time.Now()` is an argument; a time is a number of nanoseconds.
use Prim.Native.Nat.{◌/◌}
use neksur.Prelude.{ℕ, ◌+◌, ◌-◌, Option, none, some, if◌then◌else◌, Bytes, ltb, leb, Lru}
use neksur.Iceberg.Catalog.{StsCredentials}

pub record CacheKey : Type 0 where
  pub tenant_id : Bytes
  pub namespace : Bytes
  pub table_name : Bytes
  pub region : Bytes

pub record CachedCreds : Type 0 where
  pub creds : StsCredentials
  pub expires_at : ℕ
  pub issued_at : ℕ

-- `issuedAt.Add(expiresAt.Sub(issuedAt) / 2)`; a Go division rounds towards 0.
unfoldable pub half_life : CachedCreds → ℕ
half_life e =
    if leb e.issued_at e.expires_at
    then e.issued_at + (e.expires_at - e.issued_at) / 2
    else e.issued_at - (e.issued_at - e.expires_at) / 2

module _ {Cache : Type 0} (lru : Lru CacheKey CachedCreds Cache) where
  -- The tests on an entry that was found.
  unfoldable pub check_entry : ℕ → CacheKey → CachedCreds → Cache → Option StsCredentials × Cache
  unfolding half_life
  check_entry now key entry c =
      if ltb entry.expires_at now
      then (none, lru.remove key c)
      else if ltb (half_life entry) now
      then (none, lru.remove key c)
      else (some entry.creds, c)

  unfoldable pub get : ℕ → CacheKey → Cache → Option StsCredentials × Cache
  unfolding check_entry
  get now key c = elim (lru.get key c).0 [
    | none ↦ (none, (lru.get key c).1)
    | some entry ↦ check_entry now key entry (lru.get key c).1
  ]

  unfoldable pub add : ℕ → CacheKey → StsCredentials → Cache → Cache
  add now key creds c =
      lru.add key (record { creds = creds; expires_at = creds.expiration; issued_at = now }) c

  unfoldable pub invalidate : CacheKey → Cache → Cache
  invalidate key c = lru.remove key c
