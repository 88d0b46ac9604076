-- ===== src/Dialect/Print.antt =====
-- The portable SQL text of a predicate: what the emitters of internal/policy/compiler/dialect are
-- compared with.
use neksur.Prelude.{
  Bool, true, false, List, [], ◌∷◌, ◌++◌, if◌then◌else◌, Bytes, codes, same, is_empty,
}
use neksur.Fragment.Ast.{
  Node, Literal, binary_op, unary_op, column_ref, literal, in_list, func_call,
}
use neksur.Dialect.Ast.{double_quotes}

unfoldable pub print_literal : Literal → Bytes
unfolding double_quotes
print_literal v =
    if same v.kind (codes "string")
    then codes "'" ++ (double_quotes v.value ++ codes "'")
    else v.value

unfoldable pub print_column : Bytes → Bytes → Bytes
print_column table column = if is_empty table then column else table ++ (codes "." ++ column)

unfoldable pub print_values : Bool → List Literal → Bytes
unfolding print_literal
print_values first [] = []
print_values first (v ∷ vs) =
    (if first then [] else codes ", ") ++ (print_literal v ++ print_values false vs)

unfoldable pub print : Node → Bytes
unfolding print_literal print_column print_values
print (binary_op op l r) =
    codes "(" ++ (print l ++ (codes " " ++ (op ++ (codes " " ++ (print r ++ codes ")")))))
print (unary_op op n) = codes "(" ++ (op ++ (codes " " ++ (print n ++ codes ")")))
print (column_ref table column) = print_column table column
print (literal v) = print_literal v
print (in_list l values) = print l ++ (codes " IN (" ++ (print_values true values ++ codes ")"))
print (func_call name arg) = name ++ (codes "(" ++ (print arg ++ codes ")"))
