-- ===== src/Proxy/Handler.antt =====
-- `handleInject` of internal/sqlproxy/server.go. What net/http and encoding/json do is an input: the
-- body that was read, and the decoder. Headers, logs and latencies are left out; the failure metric
-- is kept. The principal, which no injector reads, is left out.
use neksur.Prelude.{
  ℕ, Bool, not, ◌&&◌, ◌||◌, Option, none, some, ◌==◌, leb, if◌then◌else◌, Bytes, is_empty, all,
  Result, ok, err,
}
use neksur.Splice.Scan.{injection_failed, unsupported_query_shape, splice_mismatch}
use neksur.Inject.Model.{
  TableRef, Response, InjectError, policy_engine_unavailable, engine_not_supported, splice_failed,
}

-- An injector that stands under an engine's name: `InjectPolicy` with its receiver.
abbrev pub Injector : Type 0 → Type 0
Injector Cache = Option Bytes → Bytes → TableRef → Cache → Response Cache

-- What `io.ReadAll` behind `http.MaxBytesReader` gives.
pub data BodyError : Type 0 where
  too_large unreadable : BodyError

pub record HttpRequest : Type 0 where
  -- what `tenant.IDFromContext` finds
  pub tenant : Option Bytes
  pub path_engine : Bytes
  pub path_prefix : Bytes
  pub raw_body : Result BodyError Bytes

pub record SqlRequest : Type 0 where
  pub sql : Bytes
  pub table : TableRef

-- The label on sql_proxy_inject_failures_total.
pub data Reason : Type 0 where
  reason_engine_not_supported reason_policy_engine_unavailable : Reason
  reason_unsupported_query_shape reason_splice_mismatch reason_injection_failed : Reason

pub record Reply (Cache : Type 0) : Type 0 where
  pub status : ℕ
  pub rewritten : Option Bytes
  pub reason : Option Reason
  pub reply_cache : Cache

abbrev is_identifier_byte : ℕ → Bool
is_identifier_byte c =
    (leb b'a' c && leb c b'z')
    || (leb b'A' c && leb c b'Z')
    || (leb b'0' c && leb c b'9')
    || c == b'_'
    || c == b'-'

-- `identifierRegex`, `^[a-zA-Z0-9_-]+$`
unfoldable pub is_identifier : Bytes → Bool
is_identifier s = not (is_empty s) && all is_identifier_byte s

abbrev pub refused : {Cache : Type 0} → ℕ → Option Reason → Cache → Reply Cache
refused status reason c = record {
  status = status;
  rewritten = none;
  reason = reason;
  reply_cache = c;
}

-- The status and the label for an error of an injector. The branch for an error that wraps no
-- sentinel has no case: an `InjectError` is one.
unfoldable pub error_status : InjectError → ℕ × Reason
error_status policy_engine_unavailable = (503, reason_policy_engine_unavailable)
error_status engine_not_supported = (501, reason_engine_not_supported)
error_status (splice_failed unsupported_query_shape) = (422, reason_unsupported_query_shape)
error_status (splice_failed splice_mismatch) = (422, reason_splice_mismatch)
error_status (splice_failed injection_failed) = (422, reason_injection_failed)

-- Steps 6 to 8, on what the injector gives.
unfoldable pub write_reply : {Cache : Type 0} → Response Cache → Reply Cache
unfolding error_status
write_reply r = elim r.result [
  | err e ↦ refused (error_status e).0 (some (error_status e).1) r.cache
  | ok text ↦ record { status = 200; rewritten = some text; reason = none; reply_cache = r.cache }
]

-- Steps 4 and 5, on the body.
unfoldable pub dispatch :
    {Cache : Type 0}
    → (Bytes → Option SqlRequest)
    → (Bytes → Option (Injector Cache))
    → HttpRequest
    → Bytes
    → Cache
    → Reply Cache
unfolding write_reply
dispatch decode injectors r body cache = elim (decode body) [
  | none ↦ refused 400 none cache
  | some req ↦
      if is_empty req.sql || is_empty req.table.name
      then refused 400 none cache
      else (elim (injectors r.path_engine) [
        | none ↦ refused 501 (some reason_engine_not_supported) cache
        | some inject_policy ↦ write_reply (inject_policy r.tenant req.sql req.table cache)
      ])
]

unfoldable pub handle_inject :
    {Cache : Type 0}
    → (Bytes → Option SqlRequest)
    → (Bytes → Option (Injector Cache))
    → HttpRequest
    → Cache
    → Reply Cache
unfolding is_identifier dispatch
handle_inject decode injectors r cache = elim r.tenant [
  | none ↦ refused 500 none cache
  | some tid ↦
      if not (is_identifier r.path_engine) || not (is_identifier r.path_prefix)
      then refused 400 none cache
      else (elim r.raw_body [
        | err too_large ↦ refused 413 none cache
        | err unreadable ↦ refused 400 none cache
        | ok body ↦ dispatch decode injectors r body cache
      ])
]
