-- ===== src/Credvend/Scope.antt =====
-- Where the credentials come from that internal/credvend keeps and gives out.
use neksur.Prelude.{
  ℕ, ◌≡◌, refl, sym, ap, subst, ◌∙◌, inl, inr, Option, none, some, Bytes, ltb, Bool-cases,
  Option-cases, Result-cases, Lru, IsLru, Result, ok, err,
}
use neksur.Iceberg.Catalog.{StsCredentials, TableRef}
use neksur.Credvend.Cache.{CacheKey, CachedCreds, half_life, check_entry, get, add, invalidate}
use neksur.Credvend.Service.{
  adapter_stub, adapter_failed, Adapter, IssueError, key_for, issue_anew, issue,
}
use neksur.Credvend.Keys.{
  same_key, same_key→eq, same_key_refl, Source, source, MayUse, Source-MayUse,
}

ok_eq : {a b : StsCredentials} → ◌≡◌ {A = Result IssueError StsCredentials} (ok a) (ok b) → a ≡ b
ok_eq h = cc

entry_eq : {a b : CachedCreds} → some a ≡ some b → a ≡ b
entry_eq h = cc

module _ {Cache : Type 0} (lru : Lru CacheKey CachedCreds Cache)
    (P : Bytes → TableRef → Bytes → StsCredentials → Type 0) where
  unfoldable pub IsScoped : Cache → Type 0
  IsScoped c = (k : CacheKey) (e : CachedCreds) → lru.peek k c ≡ some e → Source P k e.creds

  -- What the adapter issues for the table and region may be used for them by the tenant.
  unfoldable pub IssuesWithin : Bytes → Adapter → TableRef → Bytes → Type 0
  IssuesWithin tenant adapter table region =
      (creds : StsCredentials)
      → adapter.issue_scoped_sts_credentials table region ≡ ok creds
      → P tenant table region creds

  pub data Step (c d : Cache) : Type 0 where
    issues :
        (now : ℕ) (tenant : Bytes) (adapter : Adapter) (table : TableRef) (region : Bytes)
        → IssuesWithin tenant adapter table region
        → d ≡ (issue lru now tenant adapter table region c).1
        → Step c d
    invalidates : (k : CacheKey) → d ≡ invalidate lru k c → Step c d

  pub data Reach (c : Cache) : Cache → Type 0 where
    here : Reach c c
    next : {d e : Cache} → Reach c d → Step d e → Reach c e

  module _ (laws : IsLru lru) where
    IsScoped-remove : (k : CacheKey) (c : Cache) → IsScoped c → IsScoped (lru.remove k c)
    unfolding IsScoped
    IsScoped-remove k c h j e found = elim (Bool-cases (same_key j k)) [
      | inl y ↦
          elim (laws.remove_self k e c
            (subst (λ x. lru.peek x (lru.remove k c) ≡ some e) (same_key→eq j k y) found)) [ ]
      | inr n ↦
          h j e (
            sym (laws.remove_other j k c (λ i. cc (same_key_refl j, ap (same_key j) i, n))) ∙ found)
    ]

    IsScoped-add :
        (now : ℕ) (k : CacheKey) (creds : StsCredentials) (c : Cache)
        → Source P k creds
        → IsScoped c
        → IsScoped (add lru now k creds c)
    unfolding IsScoped add
    IsScoped-add now k creds c p h j e found = elim (Bool-cases (same_key j k)) [
      | inl y ↦
          let i = same_key→eq j k y in
          let v : e ≡ record { creds = creds; expires_at = creds.expiration; issued_at = now } =
            entry_eq (
              sym found
              ∙ ap (λ x. lru.peek x (add lru now k creds c)) i
              ∙ laws.peek-add k
                  (record { creds = creds; expires_at = creds.expiration; issued_at = now }) c) in
          subst (λ x. Source P x e.creds) (sym i) (subst (λ x. Source P k x.creds) (sym v) p)
      | inr n ↦ h j e (
          laws.add_other j k
            (record { creds = creds; expires_at = creds.expiration; issued_at = now }) e c
            (λ i. cc (same_key_refl j, ap (same_key j) i, n)) found)
    ]

    IsScoped-touched : (k : CacheKey) (c : Cache) → IsScoped c → IsScoped (lru.get k c).1
    unfolding IsScoped
    IsScoped-touched k c h j e found = h j e (sym (laws.peek-get j k c) ∙ found)

    -- `get` keeps the cache scoped, and so is what it finds.
    Got : CacheKey → Option StsCredentials × Cache → Type 0
    unfolding IsScoped
    Got k (none, d) = IsScoped d
    Got k (some creds, d) = Source P k creds × IsScoped d

    get-Got : (now : ℕ) (k : CacheKey) (c : Cache) → IsScoped c → Got k (get lru now k c)
    unfolding get check_entry Got
    get-Got now k c h = elim (Option-cases (lru.get k c).0) [
      | inl miss ↦ simp (get, miss) (IsScoped-touched k c h)
      | inr (e, hit) ↦ elim (Bool-cases (ltb e.expires_at now)) [
        | inl late ↦
            simp (get, hit, check_entry, late)
              (IsScoped-remove k (lru.get k c).1 (IsScoped-touched k c h))
        | inr alive ↦ elim (Bool-cases (ltb (half_life e) now)) [
          | inl old ↦
              simp (get, hit, check_entry, alive, old)
                (IsScoped-remove k (lru.get k c).1 (IsScoped-touched k c h))
          | inr young ↦
              simp (get, hit, check_entry, alive, young)
                (h k e (sym (laws.get-peek k c) ∙ hit), IsScoped-touched k c h)
        ]
      ]
    ]

    -- `issue` keeps the cache scoped, and so is what it gives out.
    Given : CacheKey → Result IssueError StsCredentials × Cache → Type 0
    unfolding IsScoped
    Given k (ok creds, d) = Source P k creds × IsScoped d
    Given k (err _, d) = IsScoped d

    issue_anew-Given :
        (now : ℕ) (tenant : Bytes) (adapter : Adapter) (table : TableRef) (region : Bytes)
        (c : Cache)
        → IssuesWithin tenant adapter table region
        → IsScoped c
        → Given (key_for tenant table region) (issue_anew lru now tenant adapter table region c)
    unfolding issue_anew Given IssuesWithin
    issue_anew-Given now tenant adapter table region c within h =
        elim (Bool-cases adapter.capabilities.supports_cred_vend) [
          | inr n ↦ simp (issue_anew, n) h
          | inl y ↦ elim (Result-cases (adapter.issue_scoped_sts_credentials table region)) [
            | inl (creds, e) ↦
                simp (issue_anew, y, e)
                  (
                    source tenant table region refl (within creds e),
                    IsScoped-add now (key_for tenant table region) creds c
                        (source tenant table region refl (within creds e)) h,
                  )
            | inr (adapter_stub, e) ↦ simp (issue_anew, y, e) h
            | inr (adapter_failed, e) ↦ simp (issue_anew, y, e) h
          ]
        ]

    Got-Given :
        (now : ℕ) (tenant : Bytes) (adapter : Adapter) (table : TableRef) (region : Bytes)
        → IssuesWithin tenant adapter table region
        → (g : Option StsCredentials × Cache) → Got (key_for tenant table region) g
        → Given (key_for tenant table region) (elim g.0 [
          | some creds ↦ (ok creds, g.1)
          | none ↦ issue_anew lru now tenant adapter table region g.1
        ])
    unfolding Got Given
    Got-Given now tenant adapter table region within (none, d) k =
        issue_anew-Given now tenant adapter table region d within k
    Got-Given now tenant adapter table region within (some creds, d) k = k

    issue-Given :
        (now : ℕ) (tenant : Bytes) (adapter : Adapter) (table : TableRef) (region : Bytes)
        (c : Cache)
        → IssuesWithin tenant adapter table region
        → IsScoped c
        → Given (key_for tenant table region) (issue lru now tenant adapter table region c)
    unfolding issue
    issue-Given now tenant adapter table region c within h =
        Got-Given now tenant adapter table region within
          (get lru now (key_for tenant table region) c)
          (get-Got now (key_for tenant table region) c h)

    IsScoped-Given :
        (k : CacheKey) (r : Result IssueError StsCredentials × Cache) → Given k r → IsScoped r.1
    unfolding Given
    IsScoped-Given k (ok creds, d) h = h.1
    IsScoped-Given k (err _, d) h = h

    Reach-IsScoped : (c d : Cache) → IsScoped c → Reach c d → IsScoped d
    unfolding invalidate
    Reach-IsScoped c d h here = h
    Reach-IsScoped c d h (next {d = b} r (issues now tenant adapter table region within e)) =
        subst IsScoped (sym e) (
          IsScoped-Given (key_for tenant table region) (issue lru now tenant adapter table region b)
            (issue-Given now tenant adapter table region b within (Reach-IsScoped c b h r)))
    Reach-IsScoped c d h (next {d = b} r (invalidates k e)) =
        subst IsScoped (sym e) (IsScoped-remove k b (Reach-IsScoped c b h r))

    creds-Given :
        (k : CacheKey) (creds : StsCredentials) (r : Result IssueError StsCredentials × Cache)
        → r.0 ≡ ok creds
        → Given k r
        → Source P k creds
    unfolding Given
    creds-Given k creds (ok x, d) e h = subst (Source P k) (ok_eq e) h.0
    creds-Given k creds (err x, d) e h = cc

    empty-IsScoped : (c : Cache) → ((k : CacheKey) → lru.peek k c ≡ none) → IsScoped c
    unfolding IsScoped
    empty-IsScoped c h k e found = cc (h k, found)

    -- If the adapters issue for a tenant, table and region only credentials that this tenant may use
    -- for them, whatever that means, then after any sequence of requests and invalidations, on a cache
    -- that was empty and keeps the documented rules, a request is given only credentials that the same
    -- tenant may use in the same region, for a table of the same name whose namespace has the same text
    -- when joined with dots, be they from the cache.
    pub issue-MayUse :
        (c d : Cache)
        → ((k : CacheKey) → lru.peek k c ≡ none)
        → Reach c d
        → (now : ℕ) (tenant : Bytes) (adapter : Adapter) (table : TableRef) (region : Bytes)
          (creds : StsCredentials)
        → IssuesWithin tenant adapter table region
        → (issue lru now tenant adapter table region d).0 ≡ ok creds
        → MayUse P tenant table region creds
    issue-MayUse c d h r now tenant adapter table region creds within e =
        Source-MayUse P tenant table region creds (
          creds-Given (key_for tenant table region) creds
            (issue lru now tenant adapter table region d) e
            (issue-Given now tenant adapter table region d within
              (Reach-IsScoped c d (empty-IsScoped c h) r)))
