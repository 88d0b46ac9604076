-- ===== src/Tests/CompileRuns.antt =====
-- internal/policy/compiler/compiler.go, on concrete policies.
use neksur.Prelude.{◌≡◌, refl, none, some, List, [], ◌∷◌, if◌then◌else◌, codes, same, ok}
use neksur.Splice.Rewrite.{splice_row_filter}
use neksur.Inject.Model.{CompiledPolicy, TableRef, Deps, status_active}
use neksur.Inject.Rows.{pinned_query}
use neksur.Inject.Trino
use neksur.Dialect.Trino as TrinoEmitter
use neksur.Dialect.Ast.{adapt_mask_for_dialect}
use neksur.Compile.Artifact.{
  PolicySource, Engine, CompiledArtifact, Emitters, DialectCompiler, compile_artifact,
}
use neksur.Compile.One.{Compiler, policy_row, compile_one}
use neksur.Compile.Active.{ColdResult, compile_one-ColdResult}
use neksur.Compile.Kindless.{as_inject, compiled_row_filters}
use neksur.Tests.InjectRuns.{ListCache, deps_of}

abbrev trino_dialect : DialectCompiler
trino_dialect = record {
  compile_row_filter = TrinoEmitter.compile_row_filter;
  compile_column_mask = TrinoEmitter.compile_column_mask;
}

abbrev emitters : Emitters
emitters = record {
  dialects = λ kind. if same kind (codes "trino") then some trino_dialect else none;
  compile_cel = λ id cel. none;
}

-- A cache that forgets, and a store that lists its rows.
abbrev compiler : Compiler (Unit {0}) (List CompiledPolicy)
compiler = record {
  emitters = emitters;
  get = λ k c. (none, c);
  put = λ k a c. c;
  executors = λ kind. some (λ sql. some 0);
  upsert_compiled_policy = λ row s. some (row ∷ s);
  sha256_hex = λ s. s;
}

abbrev mask_policy : PolicySource
mask_policy = record {
  policy_id = codes "p1";
  policy_kind = codes "column_mask";
  definition_cel = [];
  definition_sql = codes "ssn AS '***'";
}

abbrev orders : TableRef
orders = record { namespace = codes "sales"; name = codes "orders" }

abbrev trino : Engine
trino = record {
  id = codes "e1";
  engine_kind = codes "trino";
  version = codes "1";
  endpoint_url = [];
}

abbrev mask_artifact : CompiledArtifact
mask_artifact = record { kind = codes "sql_column_mask"; body = codes "'***' AS ssn" }

mask_compiles : compile_artifact emitters mask_policy trino ≡ ok mask_artifact
unfolding compile_artifact TrinoEmitter.compile_column_mask adapt_mask_for_dialect
mask_compiles = refl

compile_one-ColdResult_example :
    ColdResult compiler mask_policy orders trino tt []
      (compile_one compiler mask_policy orders trino tt [])
compile_one-ColdResult_example = compile_one-ColdResult compiler mask_policy orders trino tt [] refl

abbrev mask_stored : Deps ListCache
mask_stored =
    deps_of none
      (some (policy_row mask_policy orders trino mask_artifact status_active (codes "c") ∷ []))

compiled_row_filters_example :
    (Trino.inject_policy mask_stored
      (some (codes "t1"))
      (codes "SELECT ssn FROM orders")
      orders
      []).result
    ≡ as_inject (splice_row_filter (codes "SELECT ssn FROM orders") (codes "'***' AS ssn"))
unfolding pinned_query
compiled_row_filters_example =
    compiled_row_filters mask_policy orders trino mask_artifact (codes "c") mask_stored (codes "t1")
      (codes "SELECT ssn FROM orders") orders [] refl refl refl refl
