-- ===== src/Credvend/Keys.antt =====
-- The keys of the cache of internal/credvend, and what they stand for.
use neksur.Prelude.{
  codes, join, ◌≡◌, refl, ap, subst, Bool, true, ◌&&◌, Bytes, same, same→eq, same_refl, and_left,
  and_right,
}
use neksur.Iceberg.Catalog.{StsCredentials, TableRef}
use neksur.Credvend.Cache.{CacheKey}
use neksur.Credvend.Service.{key_for}

unfoldable pub same_key : CacheKey → CacheKey → Bool
same_key j k =
    same j.tenant_id k.tenant_id
    && same j.namespace k.namespace
    && same j.table_name k.table_name
    && same j.region k.region

fields : Bytes → Bytes → Bytes → Bytes → CacheKey
fields a b c d = record { tenant_id = a; namespace = b; table_name = c; region = d }

key_eq :
    (j k : CacheKey)
    → j.tenant_id ≡ k.tenant_id
    → j.namespace ≡ k.namespace
    → j.table_name ≡ k.table_name
    → j.region ≡ k.region
    → fields j.tenant_id j.namespace j.table_name j.region
      ≡ fields k.tenant_id k.namespace k.table_name k.region
key_eq j k a b c d = cc

pub same_key→eq : (j k : CacheKey) → same_key j k ≡ true → j ≡ k
unfolding same_key fields
same_key→eq j k h =
    let a = same j.tenant_id k.tenant_id in
    let b = same j.namespace k.namespace in
    let c = same j.table_name k.table_name in
    let abc = and_left (a && b && c) (same j.region k.region) h in
    let ab = and_left (a && b) c abc in
    key_eq j k (same→eq j.tenant_id k.tenant_id (and_left a b ab))
      (same→eq j.namespace k.namespace (and_right a b ab))
      (same→eq j.table_name k.table_name (and_right (a && b) c abc))
      (same→eq j.region k.region (and_right (a && b && c) (same j.region k.region) h))

pub same_key_refl : (k : CacheKey) → same_key k k ≡ true
unfolding same_key
same_key_refl k =
    rw (same_refl k.tenant_id, same_refl k.namespace, same_refl k.table_name, same_refl k.region)
      refl

-- `P tenant table region creds`: the credentials may be used by the tenant for the table and region.
module _ (P : Bytes → TableRef → Bytes → StsCredentials → Type 0) where
  -- What stands under a key was issued for a tenant, table and region with that key.
  pub data Source (k : CacheKey) (creds : StsCredentials) : Type 0 where
    source :
        (tenant : Bytes) (table : TableRef) (region : Bytes)
        → key_for tenant table region ≡ k
        → P tenant table region creds
        → Source k creds

  -- The credentials may be used by this very tenant in this very region, for a table of that name
  -- whose namespace has the same text when it is joined with dots.
  pub data MayUse (tenant : Bytes) (table : TableRef) (region : Bytes) (creds : StsCredentials)
      : Type 0 where
    may_use :
        (issued_for : TableRef)
        → join (codes ".") issued_for.namespace ≡ join (codes ".") table.namespace
        → issued_for.name ≡ table.name
        → P tenant issued_for region creds
        → MayUse tenant table region creds

  pub Source-MayUse :
      (tenant : Bytes) (table : TableRef) (region : Bytes) (creds : StsCredentials)
      → Source (key_for tenant table region) creds
      → MayUse tenant table region creds
  unfolding key_for
  Source-MayUse tenant table region creds (source t o r e p) =
      may_use o (ap (λ k. k.namespace) e) (ap (λ k. k.table_name) e) (
        subst (λ x. P x o region creds) (ap (λ k. k.tenant_id) e)
          (subst (λ x. P t o x creds) (ap (λ k. k.region) e) p))
