-- ===== src/Tests/SpliceRuns.antt =====
-- internal/sqlproxy/dialect/splice.go, on concrete queries.
use neksur.Prelude.{arith, ◌≡◌, refl, true, false, [], ◌∷◌, ◌++◌, codes, all, ok, err}
use neksur.Splice.Trim.{trim_space}
use neksur.Splice.Scan.{unsupported_query_shape, injection_failed, splice_mismatch, scan_to_keyword}
use neksur.Splice.Select.{consume_keyword, peek_any_keyword, set_keywords, parse_where}
use neksur.Splice.Mask.{MaskProj, is_simple_ident, apply_masks}
use neksur.Splice.Rewrite.{
  kind_row_filter, kind_column_mask, splice_artifact, pin_dialect_trino,
  rewrite_from_for_snapshot_pin,
}
use neksur.Splice.Boundaries.{parse_where_no_set_operation}
use neksur.Splice.Cuts.{stands_on_top, first_cut}
use neksur.Splice.FirstCut.{ok_or_failed, scan_to_keyword-first_cut}
use neksur.Splice.Masked.{mask_text, apply_masks_last_slot, apply_masks-absent}
use neksur.Splice.Pinned.{is_id_byte, rewrite_from-digits}

row_filter_runs :
    splice_artifact
      (codes "select a, f(b) from sales.t where x = 'GROUP' order by a")
      (codes "r = 1")
      kind_row_filter
    ≡ ok (codes "SELECT a, f(b) FROM sales.t WHERE (x = 'GROUP') AND (r = 1) order by a")
unfolding splice_artifact
row_filter_runs = refl

column_mask_runs :
    splice_artifact (codes "SELECT a, ssn FROM t LIMIT 5") (codes "ssn AS '***'") kind_column_mask
    ≡ ok (codes "SELECT a, '***' AS ssn FROM t LIMIT 5")
unfolding splice_artifact
column_mask_runs = refl

join_refused :
    splice_artifact (codes "SELECT a FROM t JOIN u") (codes "r = 1") kind_row_filter
    ≡ err unsupported_query_shape
unfolding splice_artifact
join_refused = refl

-- A parenthesis in the WHERE body closes the one that the splicer opens.
filter_escapes :
    splice_artifact (codes "SELECT a FROM t WHERE 1=1) OR (1=1") (codes "r = 1") kind_row_filter
    ≡ ok (codes "SELECT a FROM t WHERE (1=1) OR (1=1) AND (r = 1)")
unfolding splice_artifact
filter_escapes = refl

-- A set operation behind WHERE passes the test that is there for it.
union_passes :
    splice_artifact
      (codes "SELECT a FROM t WHERE x=1 UNION SELECT b FROM u")
      (codes "r = 1")
      kind_row_filter
    ≡ ok (codes "SELECT a FROM t WHERE (x=1 UNION SELECT b FROM u) AND (r = 1)")
unfolding splice_artifact
union_passes = refl

-- The body that the emitters write for `ssn AS '***'` has the other order.
emitted_mask_refused :
    splice_artifact (codes "SELECT ssn FROM t") (codes "'***' AS ssn") kind_column_mask
    ≡ err injection_failed
unfolding splice_artifact
emitted_mask_refused = refl

scan_to_keyword-first_cut_example :
    scan_to_keyword (codes "FROM") (codes " f('FROM', (a FROM b)) x_FROM, b from t WHERE c = FROM")
    ≡ ok_or_failed (
        first_cut
          (stands_on_top (codes "FROM"))
          []
          (codes " f('FROM', (a FROM b)) x_FROM, b from t WHERE c = FROM"))
scan_to_keyword-first_cut_example =
    scan_to_keyword-first_cut b'F' (codes "ROM") (omega arith)
      (codes " f('FROM', (a FROM b)) x_FROM, b from t WHERE c = FROM")

from_runs :
    scan_to_keyword (codes "FROM") (codes " f('FROM', (a FROM b)) x_FROM, b from t WHERE c = FROM")
    ≡ ok (codes " f('FROM', (a FROM b)) x_FROM, b ", codes "from t WHERE c = FROM")
unfolding scan_to_keyword
from_runs = refl

parse_where_no_set_operation_example :
    peek_any_keyword set_keywords (parse_where (codes "WHERE x=1 UNION SELECT b FROM u LIMIT 1")).1
    ≡ false
unfolding consume_keyword
parse_where_no_set_operation_example =
    parse_where_no_set_operation (codes "WHERE x=1 UNION SELECT b FROM u LIMIT 1")
      (codes " x=1 UNION SELECT b FROM u LIMIT 1") refl

abbrev hide : MaskProj
hide = record { col = codes "ssn"; expr = codes "'***'" }

apply_masks_last_slot_example :
    apply_masks ((codes "ssn" ∷ codes "a" ∷ []) ++ codes "ssn" ∷ codes "b" ∷ []) (hide ∷ [])
    ≡ ok ((codes "ssn" ∷ codes "a" ∷ []) ++ mask_text hide ∷ codes "b" ∷ [])
unfolding trim_space is_simple_ident
apply_masks_last_slot_example =
    apply_masks_last_slot (codes "ssn" ∷ codes "a" ∷ []) (codes "ssn") (codes "b" ∷ []) hide refl
      refl

apply_masks-absent_example :
    apply_masks
      (codes "a" ∷ codes "b" ∷ [])
      (record { col = codes "a"; expr = codes "1" } ∷ hide ∷ [])
    ≡ err splice_mismatch
unfolding trim_space is_simple_ident
apply_masks-absent_example =
    apply_masks-absent (codes "a" ∷ codes "b" ∷ [])
      (record { col = codes "a"; expr = codes "1" } ∷ []) hide [] refl

pin_runs :
    rewrite_from_for_snapshot_pin (codes "SELECT a FROM t WHERE x=1") (codes "42") pin_dialect_trino
    ≡ ok (codes "SELECT a FROM t FOR VERSION AS OF 42 WHERE x=1")
unfolding rewrite_from_for_snapshot_pin
pin_runs = refl

rewrite_from-digits_example : all is_id_byte (codes "42") ≡ true
rewrite_from-digits_example =
    rewrite_from-digits (codes "SELECT a FROM t WHERE x=1") (codes "42") pin_dialect_trino pin_runs
