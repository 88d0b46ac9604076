-- ===== src/Credvend/Issued.antt =====
-- Which credentials `Issue` of internal/credvend/service.go gives out.
use neksur.Prelude.{
  ℕ, ◌+◌, ◌≤◌, ◌≡◌, refl, sym, ◌∙◌, ◌⊎◌, inl, inr, true, false, some, Bytes, ltb, arith, Bool-cases,
  Option-cases, Result-cases, Lru, IsLru, Result, ok, err,
}
use neksur.Iceberg.Catalog.{StsCredentials, TableRef}
use neksur.Credvend.Cache.{CacheKey, CachedCreds, half_life, check_entry, get, add}
use neksur.Credvend.Service.{
  adapter_stub, adapter_failed, Adapter, IssueError, engine_not_supported, cred_vend_unavailable,
  key_for, issue_anew, issue,
}

-- At the time, the entry has not expired, and at most half of its life has passed.
pub IsFresh : ℕ → CachedCreds → Type 0
IsFresh now e = (now ≤ e.expires_at) × (now + now ≤ e.issued_at + e.expires_at)

fresh :
    (now : ℕ) (e : CachedCreds)
    → ltb e.expires_at now ≡ false
    → ltb (half_life e) now ≡ false
    → IsFresh now e
unfolding IsFresh half_life
fresh now e h k = ground arith

some_eq : {a b : StsCredentials} → some a ≡ some b → a ≡ b
some_eq h = cc

-- The results of `issue`, each with what led to it.
module _ {Cache : Type 0} (lru : Lru CacheKey CachedCreds Cache) where
  pub Issued :
      ℕ
      → CacheKey
      → Adapter
      → TableRef
      → Bytes
      → Cache
      → Result IssueError StsCredentials × Cache
      → Type 0
  Issued now key adapter table region c (ok creds, d) =
      ((e : CachedCreds) × (lru.peek key c ≡ some e) × (e.creds ≡ creds) × IsFresh now e)
      ⊎ ((adapter.capabilities.supports_cred_vend ≡ true)
          × (adapter.issue_scoped_sts_credentials table region ≡ ok creds)
          × (lru.peek key d
              ≡ some (record { creds = creds; expires_at = creds.expiration; issued_at = now })))
  Issued now key adapter table region c (err engine_not_supported, d) =
      (adapter.capabilities.supports_cred_vend ≡ false)
      ⊎ (adapter.issue_scoped_sts_credentials table region ≡ err adapter_stub)
  Issued now key adapter table region c (err cred_vend_unavailable, d) =
      adapter.issue_scoped_sts_credentials table region ≡ err adapter_failed

  -- What `get` finds is in the cache, and fresh.
  get-IsFresh :
      (laws : IsLru lru) (now : ℕ) (key : CacheKey) (c : Cache) (creds : StsCredentials)
      → (get lru now key c).0 ≡ some creds
      → (e : CachedCreds) × (lru.peek key c ≡ some e) × (e.creds ≡ creds) × IsFresh now e
  unfolding get check_entry
  get-IsFresh laws now key c creds h = elim (Option-cases (lru.get key c).0) [
    | inl miss ↦ cc (simp (get, miss) at h)
    | inr (e, hit) ↦ elim (Bool-cases (ltb e.expires_at now)) [
      | inl late ↦ cc (simp (get, hit, check_entry, late) at h)
      | inr alive ↦ elim (Bool-cases (ltb (half_life e) now)) [
        | inl old ↦ cc (simp (get, hit, check_entry, alive, old) at h)
        | inr young ↦ (
          e,
          sym (laws.get-peek key c) ∙ hit,
          some_eq (simp (get, hit, check_entry, alive, young) at h),
          fresh now e alive young,
        )
      ]
    ]
  ]

  issue_anew-Issued :
      (laws : IsLru lru) (now : ℕ) (tenant : Bytes) (adapter : Adapter) (table : TableRef)
      (region : Bytes) (c d : Cache)
      → Issued now
          (key_for tenant table region)
          adapter
          table
          region
          c
          (issue_anew lru now tenant adapter table region d)
  unfolding issue_anew add Issued
  issue_anew-Issued laws now tenant adapter table region c d =
      elim (Bool-cases adapter.capabilities.supports_cred_vend) [
        | inr n ↦ simp (issue_anew, n) (inl refl)
        | inl y ↦ elim (Result-cases (adapter.issue_scoped_sts_credentials table region)) [
          | inl (creds, e) ↦
              simp (issue_anew, y, e)
                (inr (
                  refl,
                  refl,
                  laws.peek-add (key_for tenant table region)
                      (record { creds = creds; expires_at = creds.expiration; issued_at = now }) d,
                ))
          | inr (adapter_stub, e) ↦ simp (issue_anew, y, e) (inr refl)
          | inr (adapter_failed, e) ↦ simp (issue_anew, y, e) refl
        ]
      ]

  -- With a cache that keeps the documented rules, credentials are given out from the cache only before
  -- they expire and in the first half of their life, or else were issued by the adapter for this
  -- request, and are then in the cache; a request without credentials is one that the adapter does not
  -- support, or one for which it failed, and which of the two the error says.
  pub issue-Issued :
      IsLru lru
      → (now : ℕ) (tenant : Bytes) (adapter : Adapter) (table : TableRef) (region : Bytes)
        (c : Cache)
      → Issued now
          (key_for tenant table region)
          adapter
          table
          region
          c
          (issue lru now tenant adapter table region c)
  unfolding issue Issued
  issue-Issued laws now tenant adapter table region c =
      elim (Option-cases (get lru now (key_for tenant table region) c).0) [
        | inr (creds, e) ↦
            simp (issue, e) (inl (get-IsFresh laws now (key_for tenant table region) c creds e))
        | inl e ↦
            simp (issue, e)
              (issue_anew-Issued laws now tenant adapter table region c
                (get lru now (key_for tenant table region) c).1)
      ]
