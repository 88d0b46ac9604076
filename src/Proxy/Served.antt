-- ===== src/Proxy/Served.antt =====
-- Which requests internal/sqlproxy/server.go answers with a query.
use neksur.Prelude.{
  ℕ, ◌≡◌, refl, true, false, ◌||◌, Option, none, some, leb, Bytes, is_empty, ok, Bool-cases,
  Option-cases, Result-cases, inl, inr,
}
use neksur.Splice.Scan.{injection_failed, unsupported_query_shape, splice_mismatch}
use neksur.Inject.Model.{
  InjectError, policy_engine_unavailable, engine_not_supported, splice_failed,
}
use neksur.Proxy.Handler.{
  Reason, reason_engine_not_supported, Injector, HttpRequest, SqlRequest, Reply, too_large,
  unreadable, refused, is_identifier, error_status, write_reply, dispatch, handle_inject,
}

-- The replies that a request allows: an error status without a query, or a query that the injector
-- registered for the engine gave for what the body decodes to.
pub data Answers {Cache : Type 0} (decode : Bytes → Option SqlRequest)
    (injectors : Bytes → Option (Injector Cache)) (r : HttpRequest) (cache : Cache)
    : Reply Cache → Type 0 where
  refuses :
      (status : ℕ) (reason : Option Reason) (c : Cache)
      → leb 400 status ≡ true
      → Answers decode injectors r cache (refused status reason c)
  serves :
      (tid body text : Bytes) (req : SqlRequest) (inject_policy : Injector Cache)
      → r.tenant ≡ some tid
      → is_identifier r.path_engine ≡ true
      → r.raw_body ≡ ok body
      → decode body ≡ some req
      → (is_empty req.sql || is_empty req.table.name) ≡ false
      → injectors r.path_engine ≡ some inject_policy
      → (inject_policy r.tenant req.sql req.table cache).result ≡ ok text
      → Answers decode injectors r cache (record {
        status = 200;
        rewritten = some text;
        reason = none;
        reply_cache = (inject_policy r.tenant req.sql req.table cache).cache;
      })

error_status_is_error : (e : InjectError) → leb 400 (error_status e).0 ≡ true
unfolding error_status
error_status_is_error policy_engine_unavailable = refl
error_status_is_error engine_not_supported = refl
error_status_is_error (splice_failed unsupported_query_shape) = refl
error_status_is_error (splice_failed splice_mismatch) = refl
error_status_is_error (splice_failed injection_failed) = refl

module _ {Cache : Type 0} (decode : Bytes → Option SqlRequest)
    (injectors : Bytes → Option (Injector Cache)) (r : HttpRequest) (cache : Cache) where
  write_reply-Answers :
      (tid body : Bytes) (req : SqlRequest) (inject_policy : Injector Cache)
      → r.tenant ≡ some tid
      → is_identifier r.path_engine ≡ true
      → r.raw_body ≡ ok body
      → decode body ≡ some req
      → (is_empty req.sql || is_empty req.table.name) ≡ false
      → injectors r.path_engine ≡ some inject_policy
      → Answers decode injectors r cache
          (write_reply (inject_policy r.tenant req.sql req.table cache))
  unfolding write_reply
  write_reply-Answers tid body req inject_policy ht hi hb hd hn hj =
      elim (Result-cases (inject_policy r.tenant req.sql req.table cache).result) [
        | inl (text, e) ↦
            rw (write_reply, e) (serves tid body text req inject_policy ht hi hb hd hn hj e)
        | inr (f, e) ↦
            rw (write_reply, e)
              (refuses (error_status f).0 (some (error_status f).1)
                (inject_policy r.tenant req.sql req.table cache).cache (error_status_is_error f))
      ]

  dispatch-Answers :
      (tid body : Bytes)
      → r.tenant ≡ some tid
      → is_identifier r.path_engine ≡ true
      → r.raw_body ≡ ok body
      → Answers decode injectors r cache (dispatch decode injectors r body cache)
  unfolding dispatch
  dispatch-Answers tid body ht hi hb = elim (Option-cases (decode body)) [
    | inl d ↦ rw (dispatch, d) (refuses 400 none cache refl)
    | inr (req, d) ↦ elim (Bool-cases (is_empty req.sql || is_empty req.table.name)) [
      | inl n ↦ rw (dispatch, d, n) (refuses 400 none cache refl)
      | inr n ↦ elim (Option-cases (injectors r.path_engine)) [
        | inl j ↦ rw (dispatch, d, n, j) (refuses 501 (some reason_engine_not_supported) cache refl)
        | inr (inject_policy, j) ↦
            rw (dispatch, d, n, j) (write_reply-Answers tid body req inject_policy ht hi hb d n j)
      ]
    ]
  ]

  reaches_dispatch :
      (tid body : Bytes)
      → r.tenant ≡ some tid
      → is_identifier r.path_engine ≡ true
      → is_identifier r.path_prefix ≡ true
      → r.raw_body ≡ ok body
      → handle_inject decode injectors r cache ≡ dispatch decode injectors r body cache
  unfolding handle_inject
  reaches_dispatch tid body ht hi hp hb = simp (handle_inject, ht, hi, hp, hb)

  -- Whatever the request, the decoder and the injectors are, the reply is either an error status of
  -- 400 or more without a query, or status 200 with the very text that the injector registered for
  -- the path's engine gave, for a request with a tenant, an engine of identifier characters and a
  -- decoded body that names a query and a table.
  pub handle_inject-Answers :
      Answers decode injectors r cache (handle_inject decode injectors r cache)
  unfolding handle_inject
  handle_inject-Answers = elim (Option-cases r.tenant) [
    | inl t ↦ rw (handle_inject, t) (refuses 500 none cache refl)
    | inr (tid, t) ↦ elim (Bool-cases (is_identifier r.path_engine)) [
      | inr i ↦ rw (handle_inject, t, i) (refuses 400 none cache refl)
      | inl i ↦ elim (Bool-cases (is_identifier r.path_prefix)) [
        | inr p ↦ rw (handle_inject, t, i, p) (refuses 400 none cache refl)
        | inl p ↦ elim (Result-cases r.raw_body) [
          | inl (body, b) ↦ rw (reaches_dispatch tid body t i p b) (dispatch-Answers tid body t i b)
          | inr (too_large, b) ↦ rw (handle_inject, t, i, p, b) (refuses 413 none cache refl)
          | inr (unreadable, b) ↦ rw (handle_inject, t, i, p, b) (refuses 400 none cache refl)
        ]
      ]
    ]
  ]
