-- ===== src/Fragment/Ast.antt =====
-- The fragment AST of internal/policy/compiler/sql_grammar.go.
use neksur.Prelude.{List, Bytes}

-- `Kind` ∈ {"string", "number", "null"} and the raw lexeme
pub record Literal : Type 0 where
  pub kind : Bytes
  pub value : Bytes

pub data Node : Type 0 where
  binary_op : Bytes → Node → Node → Node
  unary_op : Bytes → Node → Node
  -- the table qualifier ("" if there is none), the column
  column_ref : Bytes → Bytes → Node
  literal : Literal → Node
  in_list : Node → List Literal → Node
  func_call : Bytes → Node → Node

pub record MaskProject : Type 0 where
  pub column : Bytes
  pub expr : Node

-- `Kind` and the one field that is not nil
pub data Fragment : Type 0 where
  row_filter : Node → Fragment
  column_mask : List MaskProject → Fragment
