-- ===== src/Proxy/Closed.antt =====
-- A suspended policy, seen from internal/sqlproxy/server.go with the injectors of
-- internal/sqlproxy/dialect/builder.go.
use neksur.Prelude.{
  ◌≡◌, refl, ap, ◌∙◌, true, false, ◌||◌, Option, none, some, List, [], ◌∷◌, ◌++◌, Bytes, codes,
  is_empty, ok, err, Bool-cases, inl, inr,
}
use neksur.Inject.Model.{
  CompiledPolicy, TableRef, Deps, Response, InjectError, policy_engine_unavailable, key_for,
}
use neksur.Inject.Rows.{is_suspended, any_suspended, first_eligible, pinned_query}
use neksur.Inject.Fresh.{outcome, trino_miss_result}
use neksur.Splice.Rewrite.{pin_dialect_trino}
use neksur.Inject.Trino
use neksur.Proxy.Handler.{
  Injector, HttpRequest, SqlRequest, is_identifier, error_status, write_reply, dispatch,
  handle_inject,
}
use neksur.Proxy.Build.{without_pins, build_injector}

any_suspended-append :
    (engine : Bytes) (before : List CompiledPolicy) (row : CompiledPolicy)
    (after : List CompiledPolicy)
    → is_suspended engine row ≡ true
    → any_suspended engine (before ++ (row ∷ after)) ≡ true
unfolding any_suspended
any_suspended-append engine [] row after h = rw h refl
any_suspended-append engine (r ∷ before) row after h = elim (Bool-cases (is_suspended engine r)) [
  | inl e ↦ rw e refl
  | inr e ↦ rw e (any_suspended-append engine before row after h)
]

write_reply_error :
    {Cache : Type 0} (r : Response Cache) (e : InjectError)
    → r.result ≡ err e
    → (write_reply r).status ≡ (error_status e).0
unfolding write_reply
write_reply_error r e h = simp (write_reply, h)

reaches_injector :
    {Cache : Type 0} (decode : Bytes → Option SqlRequest)
    (injectors : Bytes → Option (Injector Cache)) (r : HttpRequest) (cache : Cache)
    (inject_policy : Injector Cache) {tid body : Bytes} {req : SqlRequest}
    → r.tenant ≡ some tid
    → is_identifier r.path_engine ≡ true
    → is_identifier r.path_prefix ≡ true
    → r.raw_body ≡ ok body
    → decode body ≡ some req
    → (is_empty req.sql || is_empty req.table.name) ≡ false
    → injectors r.path_engine ≡ some inject_policy
    → handle_inject decode injectors r cache
      ≡ write_reply (inject_policy r.tenant req.sql req.table cache)
unfolding handle_inject
reaches_injector decode injectors r cache inject_policy ht he hp hb hd hn hj =
    simp (handle_inject, dispatch, ht, he, hp, hb, hd, hn, hj)

trino_registered :
    {Cache : Type 0} (deps : Deps Cache) (engine : Bytes)
    → engine ≡ codes "trino"
    → build_injector deps engine ≡ some (Trino.inject_policy (without_pins deps))
unfolding build_injector
trino_registered deps engine h = rw h refl

identifier_trino : is_identifier (codes "trino") ≡ true
unfolding is_identifier
identifier_trino = refl

unpinned :
    {Cache : Type 0} (deps : Deps Cache) (table : TableRef) (query : Bytes)
    → pinned_query (without_pins deps) pin_dialect_trino table query ≡ ok query
unfolding pinned_query
unpinned deps table query = refl

status_unavailable : (error_status policy_engine_unavailable).0 ≡ 503
unfolding error_status
status_unavailable = refl

-- A well-formed request for Trino, to a proxy with the built injectors, is answered with status 503
-- if the cache misses and any of the rows loaded for the table, at whatever place, is a row of
-- Trino that is suspended.
pub trino_suspended_503 :
    {Cache : Type 0} (deps : Deps Cache) (decode : Bytes → Option SqlRequest) (r : HttpRequest)
    (cache : Cache) (before : List CompiledPolicy) (row : CompiledPolicy)
    (after : List CompiledPolicy) {tid body : Bytes} {req : SqlRequest}
    → r.tenant ≡ some tid
    → r.path_engine ≡ codes "trino"
    → is_identifier r.path_prefix ≡ true
    → r.raw_body ≡ ok body
    → decode body ≡ some req
    → (is_empty req.sql || is_empty req.table.name) ≡ false
    → (deps.get (key_for (codes "trino") tid req.table) cache).0 ≡ none
    → deps.load req.table ≡ some (before ++ (row ∷ after))
    → is_suspended (codes "trino") row ≡ true
    → (handle_inject decode (build_injector deps) r cache).status ≡ 503
trino_suspended_503 deps decode r cache before row after {tid} {body} {req} ht he hp hb hd hn hg hl
      hs =
    let inject_policy = Trino.inject_policy (without_pins deps) in
    let rows = before ++ (row ∷ after) in
    let closed =
      trino_miss_result (without_pins deps) tid req.sql req.table cache
        (unpinned deps req.table req.sql) hg hl in
    let result =
      ap (λ t. (inject_policy t req.sql req.table cache).result) ht
      ∙ closed
      ∙ ap (λ b. outcome req.sql b (first_eligible (codes "trino") rows))
          (any_suspended-append (codes "trino") before row after hs) in
    ap (λ x. x.status)
      (reaches_injector decode (build_injector deps) r cache inject_policy ht
        (ap is_identifier he ∙ identifier_trino) hp hb hd hn
        (trino_registered deps r.path_engine he))
    ∙ write_reply_error (inject_policy r.tenant req.sql req.table cache) policy_engine_unavailable
        result
    ∙ status_unavailable
