-- ===== src/Dialect/Ast.antt =====
-- The dialect-facing AST of internal/policy/compiler/dialect/trino.go, what both emitters share, and
-- the conversion of a parsed fragment (internal/policy/compiler/compiler.go). A Go node can be nil
-- or of a foreign type, for which the emitters have an error; a node of this model cannot.
use neksur.Prelude.{Bytes, List, [], ◌∷◌, ◌==◌, if◌then◌else◌, map}
use neksur.Fragment.Ast.{
  Node, Literal, MaskProject, binary_op, unary_op, column_ref, literal, in_list, func_call,
}

pub record AstLiteral : Type 0 where
  pub kind : Bytes
  pub value : Bytes

pub data AstNode : Type 0 where
  ast_binary_op : Bytes → AstNode → AstNode → AstNode
  ast_unary_op : Bytes → AstNode → AstNode
  ast_column_ref : Bytes → Bytes → AstNode
  ast_literal : AstLiteral → AstNode
  ast_in_list : AstNode → List AstLiteral → AstNode
  ast_func_call : Bytes → AstNode → AstNode

pub record AstMaskProject : Type 0 where
  pub column : Bytes
  pub expr : AstNode

pub data DialectError : Type 0 where
  empty_mask : DialectError
  unsupported_literal_kind : Bytes → DialectError
  not_whitelisted : Bytes → DialectError
  dialect_stub : DialectError

abbrev pub adapt_literal : Literal → AstLiteral
adapt_literal l = record { kind = l.kind; value = l.value }

unfoldable pub adapt_node_for_dialect : Node → AstNode
adapt_node_for_dialect (binary_op op l r) =
    ast_binary_op op (adapt_node_for_dialect l) (adapt_node_for_dialect r)
adapt_node_for_dialect (unary_op op n) = ast_unary_op op (adapt_node_for_dialect n)
adapt_node_for_dialect (column_ref table column) = ast_column_ref table column
adapt_node_for_dialect (literal l) = ast_literal (adapt_literal l)
adapt_node_for_dialect (in_list l values) =
    ast_in_list (adapt_node_for_dialect l) (map adapt_literal values)
adapt_node_for_dialect (func_call name arg) = ast_func_call name (adapt_node_for_dialect arg)

unfoldable pub adapt_mask_for_dialect : List MaskProject → List AstMaskProject
unfolding adapt_node_for_dialect
adapt_mask_for_dialect =
    map (λ (p : MaskProject). record { column = p.column; expr = adapt_node_for_dialect p.expr })

-- `strings.ReplaceAll(v, "'", "''")`
unfoldable pub double_quotes : Bytes → Bytes
double_quotes [] = []
double_quotes (c ∷ s) =
    let rest = double_quotes s in if c == b'\'' then b'\'' ∷ b'\'' ∷ rest else c ∷ rest
