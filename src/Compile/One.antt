-- ===== src/Compile/One.antt =====
-- `compileOne` and `persist` of internal/policy/compiler/compiler.go. The artifact cache, the
-- store and SHA-256 are parameters. A store that refuses a row is as before.
use neksur.Prelude.{
  Option, none, some, [], ◌++◌, if◌then◌else◌, Bytes, codes, is_empty, same, ok, err,
}
use neksur.Inject.Model.{CompiledPolicy, TableRef, status_active}
use neksur.Compile.Artifact.{
  PolicySource, Engine, CompiledArtifact, CompileError, Emitters, compile_artifact, persist_failed,
}
use neksur.Compile.Artifact
use neksur.Compile.Probe.{Executor, run_probe}

abbrev pub status_probe_failed : Bytes
status_probe_failed = codes "probe_failed"

abbrev pub status_compile_failed : Bytes
status_compile_failed = codes "compile_failed"

pub record ArtifactCacheKey : Type 0 where
  pub key_policy : Bytes
  pub key_engine_kind : Bytes
  pub key_engine_version : Bytes
  pub key_source : Bytes

pub record Compiler (Cache Store : Type 0) : Type 0 where
  pub emitters : Emitters
  pub get : ArtifactCacheKey → Cache → Option CompiledArtifact × Cache
  pub put : ArtifactCacheKey → CompiledArtifact → Cache → Cache
  pub executors : Bytes → Option Executor
  pub upsert_compiled_policy : CompiledPolicy → Store → Option Store
  pub sha256_hex : Bytes → Bytes

pub record CompileResult (Cache Store : Type 0) : Type 0 where
  pub status : Bytes
  pub error : Option CompileError
  pub cache : Cache
  pub store : Store

unfoldable pub engine_table_fqn : Bytes → Bytes → Bytes → Bytes
engine_table_fqn engine_kind ns name =
    if same engine_kind (codes "trino")
    then codes "iceberg." ++ (ns ++ (codes "." ++ name))
    else if same engine_kind (codes "spark")
    then ns ++ (codes "." ++ name)
    else if same engine_kind (codes "dremio")
    then codes "iceberg." ++ (ns ++ (codes "." ++ name))
    else ns ++ (codes "." ++ name)

-- The row that `persist` writes. It sets no ArtifactKind.
unfoldable pub policy_row :
    PolicySource → TableRef → Engine → CompiledArtifact → Bytes → Bytes → CompiledPolicy
policy_row p ref e art status checksum = record {
  policy_id = p.policy_id;
  engine_kind = e.engine_kind;
  engine_version = e.version;
  table_name = ref.name;
  table_namespace = ref.namespace;
  status = status;
  source_checksum = checksum;
  artifact_body = art.body;
  artifact_kind = [];
}

unfoldable pub source_of : PolicySource → Bytes
source_of p = if is_empty p.definition_sql then p.definition_cel else p.definition_sql

abbrev pub key_of : PolicySource → Engine → ArtifactCacheKey
key_of p e = record {
  key_policy = p.policy_id;
  key_engine_kind = e.engine_kind;
  key_engine_version = e.version;
  key_source = source_of p;
}

abbrev pub failed_artifact : CompiledArtifact
failed_artifact = record { kind = codes "failed"; body = [] }

-- A row whose error is dropped, `_ = c.persist(...)`.
abbrev pub or_as_before : {Store : Type 0} → Store → Option Store → Store
or_as_before s none = s
or_as_before s (some t) = t

module _ {Cache Store : Type 0} (c : Compiler Cache Store) (p : PolicySource) (ref : TableRef)
    (e : Engine) where
  unfoldable pub persist : CompiledArtifact → Bytes → Store → Option Store
  unfolding policy_row source_of
  persist art status s =
      c.upsert_compiled_policy (policy_row p ref e art status (c.sha256_hex (source_of p))) s

  -- An artifact that is good: stored as active, and then cached.
  unfoldable pub activate : CompiledArtifact → Cache → Cache → Store → CompileResult Cache Store
  unfolding persist
  activate art warmed cache s = elim (persist art status_active s) [
    | none ↦ record {
      status = status_compile_failed;
      error = some persist_failed;
      cache = cache;
      store = s;
    }
    | some t ↦ record { status = status_active; error = none; cache = warmed; store = t }
  ]

  -- The cold path, behind an artifact that compiled.
  unfoldable pub probe_and_activate : CompiledArtifact → Cache → Store → CompileResult Cache Store
  unfolding activate persist engine_table_fqn
  probe_and_activate art cache s =
      let warmed = c.put (key_of p e) art cache in
      if same art.kind (codes "sql_row_filter")
      then (if run_probe c.executors e.engine_kind
            (engine_table_fqn e.engine_kind ref.namespace ref.name) art.body
          then activate art warmed cache s
          else record {
            status = status_probe_failed;
            error = some Artifact.probe_failed;
            cache = cache;
            store = or_as_before s (persist art status_probe_failed s);
          })
      else activate art warmed cache s

  unfoldable pub compile_one : Cache → Store → CompileResult Cache Store
  unfolding probe_and_activate activate persist compile_artifact source_of
  compile_one cache s =
      let (hit, used) = c.get (key_of p e) cache in
      elim hit [
        | some art ↦ activate art used used s
        | none ↦ elim (compile_artifact c.emitters p e) [
          | ok art ↦ probe_and_activate art used s
          | err f ↦ record {
            status = status_compile_failed;
            error = some f;
            cache = used;
            store = or_as_before s (persist failed_artifact status_compile_failed s);
          }
        ]
      ]
