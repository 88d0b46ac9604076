-- ===== src/Dialect/Portable.antt =====
-- A row filter of internal/policy/compiler in the text of the two live engines.
use neksur.Prelude.{◌≡◌, subst, inl, inr, Bytes, ok}
use neksur.Fragment.Ast.{Node, row_filter}
use neksur.Fragment.Parser.{parse_row_filter}
use neksur.Fragment.Predicate.{IsPredicate}
use neksur.Fragment.Sound.Predicates.{parse_row_filter-IsPredicate}
use neksur.Dialect.Ast.{adapt_node_for_dialect}
use neksur.Dialect.Print.{print}
use neksur.Dialect.Trino
use neksur.Dialect.Spark
use neksur.Dialect.TrinoText
use neksur.Dialect.SparkText
use neksur.Dialect.Reparse.Predicates.{parse_row_filter-print}

same_root :
    (src : Bytes) (m n : Node)
    → parse_row_filter src ≡ ok (row_filter m)
    → parse_row_filter src ≡ ok (row_filter n)
    → m ≡ n
same_root src m n e h = cc

-- What the row-filter parser returns is well formed.
pub IsPredicate-of_parse :
    (src : Bytes) (n : Node) → parse_row_filter src ≡ ok (row_filter n) → IsPredicate n
IsPredicate-of_parse src n h = elim (parse_row_filter-IsPredicate src) [
  | inl (m, e, p) ↦ subst IsPredicate (same_root src m n e h) p
  | inr (unread, e) ↦ cc (h, e)
]

-- A row filter that parses compiles for Trino and for Spark to one and the same SQL text, and that
-- text parses to the same predicate again.
pub compile_row_filter_portable :
    (src table : Bytes) (n : Node)
    → parse_row_filter src ≡ ok (row_filter n)
    → (sql : Bytes) × (Trino.compile_row_filter table (adapt_node_for_dialect n) ≡ ok sql)
      × (Spark.compile_row_filter table (adapt_node_for_dialect n) ≡ ok sql)
      × (parse_row_filter sql ≡ ok (row_filter n))
unfolding Trino.compile_row_filter Spark.compile_row_filter
compile_row_filter_portable src table n h =
    let p = IsPredicate-of_parse src n h in
    (print n, TrinoText.emit_pred-print p, SparkText.emit_pred-print p, parse_row_filter-print p)
