-- ===== src/Fragment/Parser.antt =====
-- The recursive descent of internal/policy/compiler/sql_grammar.go. Each call of the block below
-- takes a unit of fuel.
use neksur.Prelude.{
  ℕ, zero, suc, ◌+◌, ◌*◌, true, false, Option, none, some, List, [], ◌∷◌, if◌then◌else◌, Bytes,
  codes, Result, ok, err, ◌>>=◌, length,
}
use neksur.Fragment.Ast.{
  Node, Literal, Fragment, binary_op, unary_op, column_ref, literal, in_list, row_filter,
}
use neksur.Fragment.Lexer.{at_end, consume, expect_keyword, expect_ident}
use neksur.Fragment.Literal.{Fault, parse_failed, out_of_fuel, Parser, parse_literal}

-- The qualified part of a column, after its first identifier.
unfoldable pub column_rest : Bytes → Parser Node
unfolding consume expect_ident
column_rest id1 s =
    let (dot, s1) = consume (codes ".") s in
    if dot
    then (let (id2, s2) = expect_ident s1 in
        elim id2 [ none ↦ err (parse_failed s2) | some name ↦ ok (column_ref id1 name, s2) ])
    else ok (column_ref [] id1, s1)

unfoldable pub parse_column_ref : Parser Node
unfolding expect_ident column_rest
parse_column_ref s =
    let (id1, s1) = expect_ident s in
    elim id1 [ none ↦ err (parse_failed s1) | some name ↦ column_rest name s1 ]

unfoldable pub parse_value : Parser Node
unfolding parse_literal
parse_value s = do (lit, rest) ← parse_literal s; ok (literal lit, rest)

-- The loop over an IN list, after its opening parenthesis.
unfoldable pub parse_in_list : ℕ → Parser (List Literal)
unfolding parse_literal consume
parse_in_list zero s = err out_of_fuel
parse_in_list (suc f) s = do
  (lit, s1) ← parse_literal s
  let (closed, s2) = consume (codes ")") s1
  let (comma, s3) = consume (codes ",") s2
  elim closed [
    | true ↦ ok (lit ∷ [], s2)
    | false ↦ elim comma [
      | true ↦ parse_in_list f s3 >>= λ (lits, rest). ok (lit ∷ lits, rest)
      | false ↦ err (parse_failed s3)
    ]
  ]

-- The comparison operators in the order in which the switch tries them.
abbrev pub symbol_ops : List Bytes
symbol_ops =
    codes "=" ∷ codes "!=" ∷ codes "<>" ∷ codes "<=" ∷ codes ">=" ∷ codes "<" ∷ codes ">" ∷ []

unfoldable pub first_symbol : List Bytes → Bytes → Option Bytes × Bytes
unfolding consume
first_symbol [] s = (none, s)
first_symbol (op ∷ ops) s =
    let (found, s1) = consume op s in
    elim found [ true ↦ (some op, s1) | false ↦ first_symbol ops s1 ]

-- The switch of `parseComparison`, after the column.
unfoldable pub comparison_rest : ℕ → Node → Parser Node
unfolding first_symbol expect_keyword consume parse_value parse_in_list
comparison_rest f left s =
    let (symbol, s1) = first_symbol symbol_ops s in
    elim symbol [
      | some op ↦ parse_value s1 >>= λ (v, rest). ok (binary_op op left v, rest)
      | none ↦
          let (is_in, s2) = expect_keyword (codes "IN") s1 in
          let (opened, s3) = consume (codes "(") s2 in
          let (is_like, s4) = expect_keyword (codes "LIKE") s2 in
          if is_in
          then (if opened
              then parse_in_list f s3 >>= (λ (lits, rest). ok (in_list left lits, rest))
              else err (parse_failed s3))
          else if is_like
          then parse_value s4 >>= (λ (v, rest). ok (binary_op (codes "LIKE") left v, rest))
          else err (parse_failed s4)
    ]

unfoldable pub parse_comparison : ℕ → Parser Node
unfolding parse_column_ref comparison_rest
parse_comparison f s = do (left, s1) ← parse_column_ref s; comparison_rest f left s1

unfoldable mutual
  unfolding consume expect_keyword parse_comparison

  pub parse_or : ℕ → Parser Node
  parse_or zero s = err out_of_fuel
  parse_or (suc f) s = do (left, s1) ← parse_and f s; parse_or_loop f left s1

  pub parse_or_loop : ℕ → Node → Parser Node
  parse_or_loop zero left s = err out_of_fuel
  parse_or_loop (suc f) left s =
      let (found, s1) = expect_keyword (codes "OR") s in
      elim found [
        | false ↦ ok (left, s1)
        | true ↦
            parse_and f s1 >>= λ (right, s2). parse_or_loop f (binary_op (codes "OR") left right) s2
      ]

  pub parse_and : ℕ → Parser Node
  parse_and zero s = err out_of_fuel
  parse_and (suc f) s = do (left, s1) ← parse_not f s; parse_and_loop f left s1

  pub parse_and_loop : ℕ → Node → Parser Node
  parse_and_loop zero left s = err out_of_fuel
  parse_and_loop (suc f) left s =
      let (found, s1) = expect_keyword (codes "AND") s in
      elim found [
        | false ↦ ok (left, s1)
        | true ↦ parse_not f s1 >>= λ (right, s2).
            parse_and_loop f (binary_op (codes "AND") left right) s2
      ]

  pub parse_not : ℕ → Parser Node
  parse_not zero s = err out_of_fuel
  parse_not (suc f) s =
      let (found, s1) = expect_keyword (codes "NOT") s in
      elim found [
        | false ↦ parse_primary f s1
        | true ↦ parse_not f s1 >>= λ (operand, s2). ok (unary_op (codes "NOT") operand, s2)
      ]

  pub parse_primary : ℕ → Parser Node
  parse_primary zero s = err out_of_fuel
  parse_primary (suc f) s =
      let (opened, s1) = consume (codes "(") s in
      elim opened [
        | false ↦ parse_comparison (suc f) s1
        | true ↦ parse_or f s1 >>= λ (inner, s2).
            let (closed, s3) = consume (codes ")") s2 in
            if closed then ok (inner, s3) else err (parse_failed s3)
      ]

-- Five units a byte, since `parse_or` goes through five calls before one reads a byte.
abbrev pub fuel_for : Bytes → ℕ
fuel_for s = 5 * length s + 5

unfoldable pub parse_row_filter : Bytes → Result Fault Fragment
unfolding parse_or at_end
parse_row_filter src = do
  (root, s) ← parse_or (fuel_for src) src
  let (done, s1) = at_end s
  if done then ok (row_filter root) else err (parse_failed s1)
