-- ===== src/Fragment/Mask.antt =====
-- Column-mask fragments of internal/policy/compiler/sql_grammar.go.
use neksur.Prelude.{
  ℕ, zero, suc, true, false, none, some, List, [], ◌∷◌, ◌==◌, if◌then◌else◌, Bytes, codes, is_empty,
  Result, ok, err, ◌>>=◌, length,
}
use neksur.Fragment.Ast.{Node, MaskProject, Fragment, literal, func_call, column_mask}
use neksur.Fragment.Lexer.{at_end, peek, consume, expect_keyword, expect_ident}
use neksur.Fragment.Literal.{Fault, parse_failed, out_of_fuel, Parser, null_kind}
use neksur.Fragment.Parser.{column_rest, parse_column_ref, parse_value}

-- After the first identifier of a mask expression: a call, or a column.
unfoldable pub mask_rest : Bytes → Parser Node
unfolding consume parse_column_ref column_rest
mask_rest id s =
    let (opened, s1) = consume (codes "(") s in
    elim opened [
      | false ↦ column_rest id s1
      | true ↦ parse_column_ref s1 >>= λ (arg, s2).
          let (closed, s3) = consume (codes ")") s2 in
          if closed then ok (func_call id arg, s3) else err (parse_failed s3)
    ]

unfoldable pub parse_mask_expr : Parser Node
unfolding expect_keyword peek parse_value expect_ident mask_rest
parse_mask_expr s =
    let (is_null, s1) = expect_keyword (codes "NULL") s in
    let (c, s2) = peek s1 in
    let (id, s3) = expect_ident s2 in
    elim is_null [
      | true ↦ ok (literal (record { kind = null_kind; value = codes "NULL" }), s1)
      | false ↦ elim (c == b'\'') [
        | true ↦ parse_value s2
        | false ↦ elim id [ none ↦ err (parse_failed s3) | some name ↦ mask_rest name s3 ]
      ]
    ]

-- One `col AS expr` entry.
unfoldable pub parse_project : Parser MaskProject
unfolding expect_ident expect_keyword parse_mask_expr
parse_project s =
    let (col, s1) = expect_ident s in
    elim col [
      | none ↦ err (parse_failed s1)
      | some name ↦
          let (found, s2) = expect_keyword (codes "AS") s1 in
          if found
          then parse_mask_expr s2 >>= (λ (e, s3). ok (record { column = name; expr = e }, s3))
          else err (parse_failed s2)
    ]

-- The loop of `ParseColumnMask`. An entry takes at least a byte.
unfoldable pub parse_projects : ℕ → Parser (List MaskProject)
unfolding at_end parse_project consume
parse_projects zero s = err out_of_fuel
parse_projects (suc f) s =
    let (done, s1) = at_end s in
    elim done [
      | true ↦ ok ([], s1)
      | false ↦ parse_project s1 >>= λ (p, s2).
          let (last, s3) = at_end s2 in
          let (comma, s4) = consume (codes ",") s3 in
          elim last [
            | true ↦ ok (p ∷ [], s3)
            | false ↦ elim comma [
              | false ↦ err (parse_failed s4)
              | true ↦ parse_projects f s4 >>= λ (ps, rest). ok (p ∷ ps, rest)
            ]
          ]
    ]

unfoldable pub parse_column_mask : Bytes → Result Fault Fragment
unfolding parse_projects
parse_column_mask src = do
  (projects, s) ← parse_projects (suc (length src)) src
  if is_empty projects then err (parse_failed s) else ok (column_mask projects)
