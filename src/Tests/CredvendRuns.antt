-- ===== src/Tests/CredvendRuns.antt =====
-- internal/credvend, for a table of one tenant.
use neksur.Prelude.{◌≡◌, refl, true, none, some, [], ◌∷◌, Bytes, codes, ◌↔◌, Lru, IsLru, Result, ok}
use neksur.Iceberg.Catalog.{StsCredentials, TableRef}
use neksur.Tests.Assoc.{Assoc, found, assoc, assoc-IsLru}
use neksur.Credvend.Cache.{CacheKey, CachedCreds, get}
use neksur.Credvend.Service.{AdapterError, Adapter, key_for, issue}
use neksur.Credvend.Handler.{IssueStsRequest, Deps, handle}
use neksur.Credvend.Issued.{Issued, issue-Issued}
use neksur.Credvend.Keys.{same_key, same_key→eq, same_key_refl, MayUse}
use neksur.Credvend.Scope.{IssuesWithin, here, next, issues, issue-MayUse}
use neksur.Credvend.Replies.{Reply, handle-Reply}
use neksur.Credvend.Policy.{Statement, extract_bucket_from_warehouse, build}
use neksur.Credvend.Bucket.{has_no_slash, IsWarehouse, extract_bucket_from_warehouse-IsWarehouse}
use neksur.Credvend.Separate.{parts, build_separates}

abbrev Held : Type 0
Held = Assoc CacheKey CachedCreds

abbrev lru : Lru CacheKey CachedCreds Held
lru = assoc same_key

lru-IsLru : IsLru lru
lru-IsLru = assoc-IsLru same_key same_key→eq same_key_refl

abbrev acme : Bytes
acme = codes "acme"

abbrev eu : Bytes
eu = codes "eu"

abbrev orders : TableRef
orders = record { namespace = codes "shop" ∷ []; name = codes "orders" }

abbrev keys : StsCredentials
keys = record {
  access_key_id = codes "AK";
  secret_access_key = codes "S";
  session_token = codes "T";
  expiration = 100;
  region = eu;
}

-- An adapter that issues the same credentials for each table of the region eu.
abbrev polaris : Adapter
polaris = record {
  capabilities = record { name = codes "polaris"; supports_cred_vend = true };
  issue_scoped_sts_credentials = λ table region. ok (record keys { region = region });
}

abbrev issued_once : Held
issued_once = (issue lru 10 acme polaris orders eu []).1

hit_in_first_half : (get lru 55 (key_for acme orders eu) issued_once).0 ≡ some keys
unfolding issue get key_for found same_key
hit_in_first_half = refl

miss_in_second_half : (get lru 56 (key_for acme orders eu) issued_once).0 ≡ none
unfolding issue get key_for found same_key
miss_in_second_half = refl

-- Two namespaces that count as one.
dotted_namespace :
    (get lru 20
      (key_for acme (record { namespace = codes "a.b" ∷ []; name = codes "t" }) eu)
      (issue lru 10 acme polaris
        (record { namespace = codes "a" ∷ codes "b" ∷ []; name = codes "t" })
        eu
        []).1).0
    ≡ some keys
unfolding issue get key_for found same_key
dotted_namespace = refl

issue-Issued_example :
    Issued lru 55
      (key_for acme orders eu)
      polaris
      orders
      eu
      issued_once
      (issue lru 55 acme polaris orders eu issued_once)
issue-Issued_example = issue-Issued lru lru-IsLru 55 acme polaris orders eu issued_once

abbrev ForAcme : Bytes → TableRef → Bytes → StsCredentials → Type 0
ForAcme tenant table region creds = (tenant ≡ acme) × (creds.region ≡ region)

polaris-IssuesWithin : IssuesWithin lru ForAcme acme polaris orders eu
unfolding IssuesWithin
polaris-IssuesWithin creds e = (refl, of_ok creds e)
  where
    of_ok :
        (creds : StsCredentials)
        → ◌≡◌ {A = Result AdapterError StsCredentials} (ok keys) (ok creds)
        → creds.region ≡ eu
    of_ok creds e = cc

issue-MayUse_example : MayUse ForAcme acme orders eu keys
unfolding issue found same_key
issue-MayUse_example =
    issue-MayUse lru ForAcme lru-IsLru [] issued_once (λ k. refl)
      (next here (issues 10 acme polaris orders eu polaris-IssuesWithin refl)) 55 acme polaris
      orders eu keys polaris-IssuesWithin refl

abbrev deps : Deps Bytes
deps = record {
  get_catalog_credentials = λ tid nickname. ok nickname;
  adapter_builder = λ row. some polaris;
}

abbrev request : IssueStsRequest
request = record {
  catalog_nickname = codes "main";
  table_namespace = codes "shop";
  table_name = codes "orders";
  request_region = eu;
}

handle_serves : (handle lru deps 55 (some acme) (some request) issued_once).0 ≡ (200, some keys)
unfolding handle issue found same_key
handle_serves = refl

handle-Reply_example :
    Reply lru deps 55
      (some acme)
      (some request)
      issued_once
      (handle lru deps 55 (some acme) (some request) issued_once).0
handle-Reply_example = handle-Reply lru deps 55 (some acme) (some request) issued_once

extract_bucket_from_warehouse-IsWarehouse_example :
    (extract_bucket_from_warehouse (codes "s3://lake/x") ≡ some (codes "lake"))
    ↔ IsWarehouse (codes "s3://lake/x") (codes "lake")
extract_bucket_from_warehouse-IsWarehouse_example =
    extract_bucket_from_warehouse-IsWarehouse (codes "s3://lake/x") (codes "lake")

bare_warehouse : extract_bucket_from_warehouse (codes "lake/x") ≡ none
unfolding extract_bucket_from_warehouse
bare_warehouse = refl

abbrev orders_policy : Statement
orders_policy = record {
  action = codes "s3:PutObject";
  resource = codes "arn:aws:s3:::lake/shop/orders/*" ∷ [];
  requested_region = eu;
}

build_separates_example : (orders ≡ orders) × (eu ≡ eu)
unfolding build parts has_no_slash
build_separates_example =
    build_separates orders orders eu eu (codes "s3://lake/x") orders_policy refl refl refl refl
