-- ===== src/Tests/FragmentRuns.antt =====
-- internal/policy/compiler/sql_grammar.go and the emitters, on concrete fragments.
use neksur.Prelude.{◌≡◌, refl, ◌⊎◌, [], ◌∷◌, List, Bytes, codes, ok, err}
use neksur.Fragment.Ast.{
  Node, binary_op, unary_op, column_ref, literal, in_list, func_call, row_filter, column_mask,
}
use neksur.Fragment.Literal.{parse_failed, parse_literal}
use neksur.Fragment.Parser.{parse_row_filter}
use neksur.Fragment.Mask.{parse_column_mask}
use neksur.Fragment.Predicate.{IsPredicate}
use neksur.Fragment.Sound.Predicates.{parse_row_filter-IsPredicate}
use neksur.Dialect.Ast.{AstMaskProject, adapt_node_for_dialect, adapt_mask_for_dialect}
use neksur.Dialect.Trino
use neksur.Dialect.Spark
use neksur.Dialect.Portable.{compile_row_filter_portable}
use neksur.Dialect.Outcome.{SameOutcome, compile_column_mask-SameOutcome}

abbrev source : Bytes
source = codes " region = 'o''k' and not (t.x IN (1,-2.5) or y <> NULL) "

abbrev tree : Node
tree =
    binary_op (codes "AND")
      (binary_op (codes "=") (column_ref [] (codes "region"))
        (literal (record { kind = codes "string"; value = codes "o'k" })))
      (unary_op (codes "NOT") (
        binary_op (codes "OR")
          (in_list (column_ref (codes "t") (codes "x")) (
            record { kind = codes "number"; value = codes "1" }
            ∷ record { kind = codes "number"; value = codes "-2.5" }
            ∷ []))
          (binary_op (codes "<>") (column_ref [] (codes "y"))
            (literal (record { kind = codes "null"; value = codes "NULL" })))))

source_parses : parse_row_filter source ≡ ok (row_filter tree)
unfolding parse_row_filter
source_parses = refl

source_trino :
    Trino.compile_row_filter (codes "p") (adapt_node_for_dialect tree)
    ≡ ok (codes "((region = 'o''k') AND (NOT (t.x IN (1, -2.5) OR (y <> NULL))))")
unfolding Trino.compile_row_filter adapt_node_for_dialect
source_trino = refl

trailing_token : parse_row_filter (codes "a = 1 b") ≡ err (parse_failed (codes "b"))
unfolding parse_row_filter
trailing_token = refl

not_is_no_column : parse_row_filter (codes "NOT = 1") ≡ err (parse_failed (codes "= 1"))
unfolding parse_row_filter
not_is_no_column = refl

-- The grammar's comment wants digits on both sides of a point.
point_forms :
    parse_literal (codes "1.") ≡ ok (record { kind = codes "number"; value = codes "1." }, [])
unfolding parse_literal
point_forms = refl

abbrev mask : Bytes
mask = codes "ssn AS '***', email AS hash(email)"

mask_trino :
    (parse_column_mask mask)
    ≡ ok (
        column_mask (
          record {
            column = codes "ssn";
            expr = literal (record { kind = codes "string"; value = codes "***" });
          }
          ∷ record {
            column = codes "email";
            expr = func_call (codes "hash") (column_ref [] (codes "email"));
          }
          ∷ []))
unfolding parse_column_mask
mask_trino = refl

parse_row_filter-IsPredicate_example :
    ((n : Node) × (parse_row_filter source ≡ ok (row_filter n)) × IsPredicate n)
    ⊎ ((unread : Bytes) × (parse_row_filter source ≡ err (parse_failed unread)))
parse_row_filter-IsPredicate_example = parse_row_filter-IsPredicate source

compile_row_filter_portable_example :
    (sql : Bytes) × (Trino.compile_row_filter (codes "p") (adapt_node_for_dialect tree) ≡ ok sql)
    × (Spark.compile_row_filter (codes "p") (adapt_node_for_dialect tree) ≡ ok sql)
    × (parse_row_filter sql ≡ ok (row_filter tree))
compile_row_filter_portable_example =
    compile_row_filter_portable source (codes "p") tree source_parses

abbrev odd_mask : List AstMaskProject
odd_mask = adapt_mask_for_dialect (
    record { column = codes "ssn"; expr = func_call (codes "md5") (column_ref [] (codes "ssn")) }
    ∷ [])

compile_column_mask-SameOutcome_example :
    SameOutcome
      (Trino.compile_column_mask (codes "p") odd_mask)
      (Spark.compile_column_mask (codes "p") odd_mask)
compile_column_mask-SameOutcome_example = compile_column_mask-SameOutcome (codes "p") odd_mask
