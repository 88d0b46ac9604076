-- ===== src/Compile/Active.antt =====
-- What `compileOne` of internal/policy/compiler/compiler.go stores and caches.
use neksur.Prelude.{
  ◌≡◌, refl, true, false, none, some, Bytes, same, codes, ok, Bool-cases, Option-cases,
  Result-cases, inl, inr,
}
use neksur.Inject.Model.{CompiledPolicy, TableRef, status_active}
use neksur.Compile.Artifact.{
  PolicySource, Engine, CompiledArtifact, CompileError, Emitters, compile_artifact, persist_failed,
}
use neksur.Compile.Artifact
use neksur.Compile.Probe.{run_probe}
use neksur.Compile.One.{
  Compiler, CompileResult, status_probe_failed, status_compile_failed, engine_table_fqn, policy_row,
  source_of, key_of, or_as_before, persist, activate, probe_and_activate, compile_one,
  failed_artifact,
}

abbrev pub sql_row_filter : Bytes
sql_row_filter = codes "sql_row_filter"

module _ {Cache Store : Type 0} (c : Compiler Cache Store) (p : PolicySource) (ref : TableRef)
    (e : Engine) where
  -- The row of the policy, with any artifact and status.
  abbrev pub row_of : CompiledArtifact → Bytes → CompiledPolicy
  row_of art status = policy_row p ref e art status (c.sha256_hex (source_of p))

  -- The results that a policy not in the cache allows.
  pub data ColdResult (used : Cache) (s : Store) : CompileResult Cache Store → Type 0 where
    -- compiled, probed without an error if it is a row filter, stored as active, and cached
    activated :
        (art : CompiledArtifact) (t : Store)
        → compile_artifact c.emitters p e ≡ ok art
        → (same art.kind sql_row_filter ≡ true
            → run_probe c.executors e.engine_kind
                (engine_table_fqn e.engine_kind ref.namespace ref.name)
                art.body
              ≡ true)
        → c.upsert_compiled_policy (row_of art status_active) s ≡ some t
        → ColdResult used s (record {
          status = status_active;
          error = none;
          cache = c.put (key_of p e) art used;
          store = t;
        })
    -- not active and not cached; at most a row that is not active was stored
    withheld :
        (art : CompiledArtifact) (status : Bytes) (f : CompileError)
        → same status status_active ≡ false
        → ColdResult used s (record {
          status = status;
          error = some f;
          cache = used;
          store = or_as_before s (c.upsert_compiled_policy (row_of art status) s);
        })
    -- the store refused the active row
    unstored :
        (art : CompiledArtifact)
        → c.upsert_compiled_policy (row_of art status_active) s ≡ none
        → ColdResult used s (record {
          status = status_compile_failed;
          error = some persist_failed;
          cache = used;
          store = s;
        })

  activate-ColdResult :
      (used : Cache) (s : Store) (art : CompiledArtifact)
      → compile_artifact c.emitters p e ≡ ok art
      → (same art.kind sql_row_filter ≡ true
          → run_probe c.executors e.engine_kind
              (engine_table_fqn e.engine_kind ref.namespace ref.name)
              art.body
            ≡ true)
      → ColdResult used s (activate c p ref e art (c.put (key_of p e) art used) used s)
  unfolding activate persist
  activate-ColdResult used s art h k =
      elim (Option-cases (c.upsert_compiled_policy (row_of art status_active) s)) [
        | inl u ↦ rw (activate, persist, u) (unstored art u)
        | inr (t, u) ↦ rw (activate, persist, u) (activated art t h k u)
      ]

  probe_and_activate-ColdResult :
      (used : Cache) (s : Store) (art : CompiledArtifact)
      → compile_artifact c.emitters p e ≡ ok art
      → ColdResult used s (probe_and_activate c p ref e art used s)
  unfolding probe_and_activate
  probe_and_activate-ColdResult used s art h = elim (Bool-cases (same art.kind sql_row_filter)) [
    | inr k ↦ rw (probe_and_activate, k) (activate-ColdResult used s art h (λ x. cc (k, x)))
    | inl k ↦
        let a =
          run_probe c.executors e.engine_kind
            (engine_table_fqn e.engine_kind ref.namespace ref.name) art.body in
        elim (Bool-cases a) [
          | inl b ↦ rw (probe_and_activate, k, b) (activate-ColdResult used s art h (λ x. b))
          | inr b ↦
              rw (probe_and_activate, k, b)
                (withheld art status_probe_failed Artifact.probe_failed refl)
        ]
  ]

  -- A policy that is not in the cache becomes active, and is cached, only with an artifact that it
  -- compiles to, for which the probe gives no error if it is a row filter, and that is stored as
  -- active. Otherwise the status is not active, the cache is as before, and no active row is stored.
  pub compile_one-ColdResult :
      (cache : Cache) (s : Store)
      → (c.get (key_of p e) cache).0 ≡ none
      → ColdResult (c.get (key_of p e) cache).1 s (compile_one c p ref e cache s)
  unfolding compile_one
  compile_one-ColdResult cache s g =
      let used = (c.get (key_of p e) cache).1 in
      elim (Result-cases (compile_artifact c.emitters p e)) [
        | inl (art, h) ↦ rw (compile_one, g, h) (probe_and_activate-ColdResult used s art h)
        | inr (f, h) ↦
            rw (compile_one, g, h) (withheld failed_artifact status_compile_failed f refl)
      ]
