-- ===== src/Dialect/Spark.antt =====
-- internal/policy/compiler/dialect/spark.go. `emit_pred` returns what the Go method writes.
use neksur.Prelude.{
  Bool, true, false, ◌||◌, List, [], ◌∷◌, ◌++◌, if◌then◌else◌, Bytes, codes, same, is_empty, join,
  Result, ok, err, ◌>>=◌,
}
use neksur.Dialect.Ast.{
  AstNode, AstLiteral, AstMaskProject, DialectError, ast_binary_op, ast_unary_op, ast_column_ref,
  ast_literal, ast_in_list, ast_func_call, empty_mask, unsupported_literal_kind, not_whitelisted,
  double_quotes,
}

unfoldable pub kind : Bytes
kind = codes "spark"

unfoldable pub emit_column : Bytes → Bytes → Bytes
emit_column table column = if is_empty table then column else table ++ (codes "." ++ column)

unfoldable pub emit_literal : AstLiteral → Result DialectError Bytes
unfolding double_quotes
emit_literal v =
    if same v.kind (codes "string")
    then ok (codes "'" ++ (double_quotes v.value ++ codes "'"))
    else if same v.kind (codes "number")
    then ok v.value
    else if same v.kind (codes "null")
    then ok (codes "NULL")
    else err (unsupported_literal_kind v.kind)

-- The loop over the values of an IN list; the separator stands before each but the first.
unfoldable pub emit_values : Bool → List AstLiteral → Result DialectError Bytes
unfolding emit_literal
emit_values first [] = ok []
emit_values first (v ∷ vs) = do
  s ← emit_literal v
  rest ← emit_values false vs
  ok ((if first then [] else codes ", ") ++ (s ++ rest))

-- The functions on the list, applied to what is written for the argument; the name is tested first.
unfoldable pub emit_call : Bytes → Result DialectError Bytes → Result DialectError Bytes
emit_call name written =
    if same name (codes "hash")
    then (written >>= λ arg. ok (codes "sha2(CAST(" ++ (arg ++ codes " AS STRING), 256)")))
    else if same name (codes "lower") || same name (codes "upper") || same name (codes "length")
    then (written >>= λ arg. ok (name ++ (codes "(" ++ (arg ++ codes ")"))))
    else err (not_whitelisted name)

unfoldable pub emit_pred : AstNode → Result DialectError Bytes
unfolding emit_column emit_literal emit_values emit_call
emit_pred (ast_binary_op op left right) = do
  l ← emit_pred left
  r ← emit_pred right
  ok (codes "(" ++ (l ++ (codes " " ++ (op ++ (codes " " ++ (r ++ codes ")"))))))
emit_pred (ast_unary_op op operand) = do
  s ← emit_pred operand
  ok (codes "(" ++ (op ++ (codes " " ++ (s ++ codes ")"))))
emit_pred (ast_column_ref table column) = ok (emit_column table column)
emit_pred (ast_literal v) = emit_literal v
emit_pred (ast_in_list left values) = do
  l ← emit_pred left
  vs ← emit_values true values
  ok (l ++ (codes " IN (" ++ (vs ++ codes ")")))
emit_pred (ast_func_call name arg) = emit_call name (emit_pred arg)

unfoldable pub compile_row_filter : Bytes → AstNode → Result DialectError Bytes
unfolding emit_pred
compile_row_filter table predicate = emit_pred predicate

unfoldable pub emit_projects : List AstMaskProject → Result DialectError (List Bytes)
unfolding emit_pred
emit_projects [] = ok []
emit_projects (p ∷ ps) = do
  s ← emit_pred p.expr
  rest ← emit_projects ps
  ok ((s ++ (codes " AS " ++ p.column)) ∷ rest)

unfoldable pub compile_column_mask : Bytes → List AstMaskProject → Result DialectError Bytes
unfolding emit_projects join
compile_column_mask table projects =
    if is_empty projects
    then err empty_mask
    else (emit_projects projects >>= λ parts. ok (join (codes ", ") parts))
