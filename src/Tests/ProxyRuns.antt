-- ===== src/Tests/ProxyRuns.antt =====
-- internal/sqlproxy/server.go and cache.go, on concrete requests and caches.
use neksur.Prelude.{
  and_left, and_right, ◌≡◌, refl, true, false, Option, none, some, List, [], ◌∷◌, if◌then◌else◌,
  Bytes, codes, same, same→eq, sym, ap, ok, Bool-cases, inl, inr,
}
use neksur.Splice.Rewrite.{kind_row_filter}
use neksur.Inject.Model.{
  CompiledPolicy, TableRef, CacheKey, ArtifactEntry, Deps, status_miss, status_divergent_suspended,
  key_for,
}
use neksur.Inject.Rows.{pinned_query}
use neksur.Inject.Verdict.{Verdict}
use neksur.Inject.Order.{OrderedVerdict}
use neksur.Inject.Trino
use neksur.Inject.Spark
use neksur.Inject.Dremio
use neksur.Proxy.Handler.{Injector, HttpRequest, SqlRequest, handle_inject}
use neksur.Proxy.Eviction.{invalidate}
use neksur.Proxy.Evicted.{AfterEviction, same_key, has_key, look-invalidate}
use neksur.Proxy.Requeried.{invalidate-Verdicts}
use neksur.Proxy.Served.{Answers, handle_inject-Answers}

abbrev EntryList : Type 0
EntryList = List (CacheKey × ArtifactEntry)

abbrev look : CacheKey → EntryList → Option ArtifactEntry
look k [] = none
look k ((j, e) ∷ c) = let rest = look k c in if same_key k j then some e else rest

abbrev keys : EntryList → List CacheKey
keys [] = []
keys ((j, e) ∷ c) = j ∷ keys c

abbrev remove : CacheKey → EntryList → EntryList
remove k [] = []
remove k ((j, e) ∷ c) = let rest = remove k c in if same_key j k then rest else (j, e) ∷ rest

keys_complete :
    (k : CacheKey) (c : EntryList) (e : ArtifactEntry)
    → look k c ≡ some e
    → has_key k (keys c) ≡ true
keys_complete k [] e h = cc
keys_complete k ((j, f) ∷ c) e h = elim (Bool-cases (same_key k j)) [
  | inl s ↦ rw s refl
  | inr s ↦ rw s (keys_complete k c e (rw s at h))
]

same_key→eq : (k j : CacheKey) → same_key k j ≡ true → k ≡ j
same_key→eq k j h = λ i. record {
  tenant_id = same→eq k.tenant_id j.tenant_id (and_left (same k.tenant_id j.tenant_id) _ h) i;
  key_table =
      same→eq k.key_table j.key_table
        (and_left (same k.key_table j.key_table) _ (and_right (same k.tenant_id j.tenant_id) _ h))
        i;
  key_namespace =
      same→eq k.key_namespace j.key_namespace
        (and_left (same k.key_namespace j.key_namespace) _ (
          and_right (same k.key_table j.key_table) _
            (and_right (same k.tenant_id j.tenant_id) _ h)))
        i;
  engine =
      same→eq k.engine j.engine
        (and_right (same k.key_namespace j.key_namespace) _ (
          and_right (same k.key_table j.key_table) _
            (and_right (same k.tenant_id j.tenant_id) _ h)))
        i;
}

remove_same : (k j : CacheKey) (c : EntryList) → same_key k j ≡ true → look k (remove j c) ≡ none
remove_same k j [] h = refl
remove_same k j ((i, e) ∷ c) h = elim (Bool-cases (same_key i j)) [
  | inl s ↦ rw s (remove_same k j c h)
  | inr s ↦ elim (Bool-cases (same_key k i)) [
    | inl t ↦ cc (sym h, s, ap (λ x. same_key x j) (same_key→eq k i t))
    | inr t ↦ rw (s, t) (remove_same k j c h)
  ]
]

remove_other :
    (k j : CacheKey) (c : EntryList) → same_key k j ≡ false → look k (remove j c) ≡ look k c
remove_other k j [] h = refl
remove_other k j ((i, e) ∷ c) h = elim (Bool-cases (same_key i j)) [
  | inl s ↦ elim (Bool-cases (same_key k i)) [
    | inl t ↦ cc (h, sym s, ap (λ x. same_key x j) (same_key→eq k i t))
    | inr t ↦ rw (s, t) (remove_other k j c h)
  ]
  | inr s ↦ elim (Bool-cases (same_key k i)) [
    | inl t ↦ rw (s, t) refl
    | inr t ↦ rw (s, t) (remove_other k j c h)
  ]
]

abbrev orders : TableRef
orders = record { namespace = codes "sales"; name = codes "orders" }

abbrev trino_key : CacheKey
trino_key = key_for (codes "trino") (codes "t1") orders

abbrev one_entry : EntryList
one_entry = (trino_key, record { body = codes "r = 1"; kind = [] }) ∷ []

abbrev after_eviction : EntryList
after_eviction = invalidate keys remove (codes "t1") (codes "orders") one_entry

look-invalidate_example :
    AfterEviction
      (codes "t1")
      (codes "orders")
      trino_key
      (look trino_key one_entry)
      (look trino_key after_eviction)
look-invalidate_example =
    look-invalidate look keys remove keys_complete remove_same remove_other (codes "t1")
      (codes "orders") trino_key one_entry

-- Another tenant's eviction.
other_tenant_kept :
    look trino_key (invalidate keys remove (codes "t2") (codes "orders") one_entry)
    ≡ some (record { body = codes "r = 1"; kind = [] })
unfolding invalidate
other_tenant_kept = refl

abbrev suspended_row : CompiledPolicy
suspended_row = record {
  policy_id = codes "p1";
  engine_kind = codes "trino";
  engine_version = codes "1";
  table_name = codes "orders";
  table_namespace = codes "sales";
  status = status_divergent_suspended;
  source_checksum = codes "c";
  artifact_body = codes "r = 1";
  artifact_kind = kind_row_filter;
}

abbrev deps : Deps EntryList
deps = record {
  get = λ k c. (look k c, c);
  add = λ k e c. (k, e) ∷ c;
  load = λ t. some (suspended_row ∷ []);
  pin_store = none;
}

abbrev query : Bytes
query = codes "SELECT a FROM orders"

invalidate-Verdicts_example :
    Verdict
      (codes "trino")
      query
      (suspended_row ∷ [])
      (Trino.inject_policy deps (some (codes "t1")) query orders after_eviction).result
    × Verdict
        (codes "spark")
        query
        (suspended_row ∷ [])
        (Spark.inject_policy deps (some (codes "t1")) query orders after_eviction).result
    × OrderedVerdict query
        (suspended_row ∷ [])
        (Dremio.inject_policy deps (some (codes "t1")) query orders after_eviction).result
unfolding pinned_query
invalidate-Verdicts_example =
    invalidate-Verdicts deps keys remove keys_complete remove_same remove_other (codes "t1") query
      orders one_entry refl refl refl

abbrev echoes : Injector (Unit {0})
echoes tenant query table c = record { result = ok query; cache_status = status_miss; cache = c }

abbrev decoded : Bytes → Option SqlRequest
decoded body = some (record { sql = body; table = orders })

abbrev only_trino : Bytes → Option (Injector (Unit {0}))
only_trino engine = if same engine (codes "trino") then some echoes else none

abbrev request : HttpRequest
request = record {
  tenant = some (codes "t1");
  path_engine = codes "trino";
  path_prefix = codes "main";
  raw_body = ok (codes "SELECT a FROM orders");
}

handle_inject-Answers_example :
    Answers decoded only_trino request tt (handle_inject decoded only_trino request tt)
handle_inject-Answers_example = handle_inject-Answers decoded only_trino request tt

served_runs :
    (handle_inject decoded only_trino request tt).rewritten ≡ some (codes "SELECT a FROM orders")
unfolding handle_inject
served_runs = refl
