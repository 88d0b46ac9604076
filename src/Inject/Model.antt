-- ===== src/Inject/Model.antt =====
-- What the injectors of internal/sqlproxy/dialect work on: the rows of
-- internal/policy/store/compiled.go, the types of internal/sqlproxy/injector.go, and their
-- dependencies.
use neksur.Prelude.{Option, List, Bytes, codes, Result, ok, err}
use neksur.Splice.Scan.{SpliceError}
use neksur.Splice.Rewrite.{splice_artifact}

-- A status is a string in the code; these are two of its constants.
abbrev pub status_active : Bytes
status_active = codes "active"

abbrev pub status_divergent_suspended : Bytes
status_divergent_suspended = codes "divergent_suspended"

pub record CompiledPolicy : Type 0 where
  pub policy_id : Bytes
  pub engine_kind : Bytes
  pub engine_version : Bytes
  pub table_name : Bytes
  pub table_namespace : Bytes
  pub status : Bytes
  pub source_checksum : Bytes
  pub artifact_body : Bytes
  pub artifact_kind : Bytes

pub record TableRef : Type 0 where
  pub namespace : Bytes
  pub name : Bytes

pub record CacheKey : Type 0 where
  pub tenant_id : Bytes
  pub key_namespace : Bytes
  pub key_table : Bytes
  pub engine : Bytes

pub record ArtifactEntry : Type 0 where
  pub body : Bytes
  pub kind : Bytes

pub data CacheStatus : Type 0 where
  status_hit status_miss status_error : CacheStatus

-- The sentinel that an error of an injector wraps.
pub data InjectError : Type 0 where
  policy_engine_unavailable : InjectError
  engine_not_supported : InjectError
  splice_failed : SpliceError → InjectError

-- What is not in the repository, or is a database: the LRU cache of golang-lru, whose `get` counts
-- as a use and so returns a cache; the artifact store, which may fail; and the pin store, which may
-- be nil, may fail, and answers with the empty identifier where no pin is active.
pub record Deps (Cache : Type 0) : Type 0 where
  pub get : CacheKey → Cache → Option ArtifactEntry × Cache
  pub add : CacheKey → ArtifactEntry → Cache → Cache
  pub load : TableRef → Option (List CompiledPolicy)
  pub pin_store : Option (TableRef → Option Bytes)

-- The three results of `InjectPolicy`, and the cache it leaves behind. The text that goes with an
-- error is empty in the code.
pub record Response (Cache : Type 0) : Type 0 where
  pub result : Result InjectError Bytes
  pub cache_status : CacheStatus
  pub cache : Cache

abbrev pub failed : {Cache : Type 0} → CacheStatus → InjectError → Cache → Response Cache
failed status e c = record { result = err e; cache_status = status; cache = c }

-- The two ways in which a splice ends the request, from a hit or from a miss.
unfoldable pub spliced : Bytes → ArtifactEntry → Result InjectError Bytes
unfolding splice_artifact
spliced query e = elim (splice_artifact query e.body e.kind) [
  | ok text ↦ ok text
  | err f ↦ err (splice_failed f)
]

abbrev pub settle :
    {Cache : Type 0} → CacheStatus → Cache → Result InjectError Bytes → Response Cache
settle status c (ok text) = record { result = ok text; cache_status = status; cache = c }
settle status c (err f) = failed status_error f c

unfoldable pub respond :
    {Cache : Type 0} → CacheStatus → Bytes → ArtifactEntry → Cache → Response Cache
unfolding spliced
respond status query e c = settle status c (spliced query e)

abbrev pub entry_of : CompiledPolicy → ArtifactEntry
entry_of row = record { body = row.artifact_body; kind = row.artifact_kind }

abbrev pub key_for : Bytes → Bytes → TableRef → CacheKey
key_for engine tid table = record {
  tenant_id = tid;
  key_namespace = table.namespace;
  key_table = table.name;
  engine = engine;
}
