-- ===== src/Compile/Artifact.antt =====
-- `compileArtifact` of internal/policy/compiler/compiler.go. The map of dialect emitters and the CEL
-- compiler, which is cel-go's, are parameters. Of an artifact the two parts that are stored are kept.
use neksur.Prelude.{
  Option, none, some, List, if◌then◌else◌, Bytes, codes, is_empty, same, Result, ok, err,
}
use neksur.Fragment.Ast.{row_filter, column_mask}
use neksur.Fragment.Parser.{parse_row_filter}
use neksur.Fragment.Mask.{parse_column_mask}
use neksur.Dialect.Ast.{
  AstNode, AstMaskProject, DialectError, dialect_stub, adapt_node_for_dialect,
  adapt_mask_for_dialect,
}

pub record PolicySource : Type 0 where
  pub policy_id : Bytes
  pub policy_kind : Bytes
  pub definition_cel : Bytes
  pub definition_sql : Bytes

pub record Engine : Type 0 where
  pub id : Bytes
  pub engine_kind : Bytes
  pub version : Bytes
  pub endpoint_url : Bytes

pub record CompiledArtifact : Type 0 where
  pub kind : Bytes
  pub body : Bytes

-- The sentinel that an error of the compiler wraps; a probe or the store has others.
pub data CompileError : Type 0 where
  compile_failed stub_emitter probe_failed persist_failed : CompileError

pub record DialectCompiler : Type 0 where
  pub compile_row_filter : Bytes → AstNode → Result DialectError Bytes
  pub compile_column_mask : Bytes → List AstMaskProject → Result DialectError Bytes

pub record Emitters : Type 0 where
  pub dialects : Bytes → Option DialectCompiler
  -- the encoded artifact for a policy's identifier and its CEL text, if both are wired and it compiles
  pub compile_cel : Bytes → Bytes → Option Bytes

-- ErrDialectStub is passed on, any other error of an emitter is ErrCompileFailed.
unfoldable pub emitted : Bytes → Result DialectError Bytes → Result CompileError CompiledArtifact
emitted kind (ok sql) = ok (record { kind = kind; body = sql })
emitted kind (err dialect_stub) = err stub_emitter
emitted kind (err _) = err compile_failed

-- The two cases of the switch on the policy's kind.
unfoldable pub compile_filter :
    DialectCompiler → PolicySource → Result CompileError CompiledArtifact
unfolding parse_row_filter emitted
compile_filter d p = elim (parse_row_filter p.definition_sql) [
  | ok (row_filter root) ↦
      emitted (codes "sql_row_filter")
        (d.compile_row_filter p.policy_id (adapt_node_for_dialect root))
  | ok (column_mask mask) ↦ err compile_failed
  | err e ↦ err compile_failed
]

unfoldable pub compile_mask : DialectCompiler → PolicySource → Result CompileError CompiledArtifact
unfolding parse_column_mask emitted
compile_mask d p = elim (parse_column_mask p.definition_sql) [
  | ok (column_mask mask) ↦
      emitted (codes "sql_column_mask")
        (d.compile_column_mask p.policy_id (adapt_mask_for_dialect mask))
  | ok (row_filter root) ↦ err compile_failed
  | err e ↦ err compile_failed
]

unfoldable pub compile_sql : DialectCompiler → PolicySource → Result CompileError CompiledArtifact
unfolding compile_filter compile_mask
compile_sql d p =
    if same p.policy_kind (codes "row_filter")
    then compile_filter d p
    else if same p.policy_kind (codes "column_mask")
    then compile_mask d p
    else err compile_failed

unfoldable pub compile_artifact :
    Emitters → PolicySource → Engine → Result CompileError CompiledArtifact
unfolding compile_sql
compile_artifact em p e =
    if is_empty p.definition_cel
    then (elim (em.dialects e.engine_kind) [ none ↦ err compile_failed | some d ↦ compile_sql d p ])
    else (elim (em.compile_cel p.policy_id p.definition_cel) [
      | none ↦ err compile_failed
      | some encoded ↦ ok (record { kind = codes "cel"; body = encoded })
    ])
