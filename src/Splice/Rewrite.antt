-- ===== src/Splice/Rewrite.antt =====
-- The rewriters of internal/sqlproxy/dialect/splice.go. The principal, which the code ignores, is
-- left out.
use neksur.Prelude.{
  Bool, false, not, ◌&&◌, ◌||◌, [], ◌∷◌, ◌++◌, ◌==◌, if◌then◌else◌, Bytes, codes, is_empty, same,
  all, join, Result, ok, err, ◌>>=◌,
}
use neksur.Fragment.Lexer.{is_digit}
use neksur.Splice.Trim.{trim_space}
use neksur.Splice.Scan.{SpliceError, injection_failed, splice_mismatch}
use neksur.Splice.Select.{parse_select}
use neksur.Splice.Mask.{parse_mask_projections, parse_projection_list, apply_masks}

-- ` WHERE w` and ` t`, each only if there is something to write
unfoldable pub where_clause : Bytes → Bytes
unfolding trim_space
where_clause w = if is_empty (trim_space w) then [] else codes " WHERE " ++ trim_space w

unfoldable pub tail_clause : Bytes → Bytes
unfolding trim_space
tail_clause t = if is_empty (trim_space t) then [] else codes " " ++ trim_space t

-- The WHERE clause of a row filter.
unfoldable pub filter_clause : Bytes → Bytes → Bytes
unfolding trim_space
filter_clause w body =
    if is_empty (trim_space w)
    then codes " WHERE (" ++ (body ++ codes ")")
    else codes " WHERE (" ++ (trim_space w ++ (codes ") AND (" ++ (body ++ codes ")")))

unfoldable pub splice_row_filter : Bytes → Bytes → Result SpliceError Bytes
unfolding parse_select filter_clause tail_clause
splice_row_filter query body = do
  s ← parse_select query
  ok (
      codes "SELECT "
      ++ (s.projection
          ++ (codes " FROM "
              ++ (s.table ++ (filter_clause s.where_body body ++ tail_clause s.tail)))))

unfoldable pub splice_column_mask : Bytes → Bytes → Result SpliceError Bytes
unfolding parse_select parse_mask_projections parse_projection_list apply_masks where_clause
    tail_clause join
splice_column_mask query body = do
  s ← parse_select query
  if same (trim_space s.projection) (codes "*") then err splice_mismatch else do
    masks ← parse_mask_projections body
    proj_cols ← parse_projection_list s.projection
    rewritten ← apply_masks proj_cols masks
    ok (
        codes "SELECT "
        ++ (join (codes ", ") rewritten
            ++ (codes " FROM " ++ (s.table ++ (where_clause s.where_body ++ tail_clause s.tail)))))

abbrev pub kind_row_filter : Bytes
kind_row_filter = codes "row-filter"

abbrev pub kind_column_mask : Bytes
kind_column_mask = codes "column-mask"

abbrev pub kind_predicate : Bytes
kind_predicate = codes "predicate"

unfoldable pub splice_artifact : Bytes → Bytes → Bytes → Result SpliceError Bytes
unfolding splice_row_filter splice_column_mask
splice_artifact query body kind =
    if same kind kind_row_filter || is_empty kind
    then splice_row_filter query body
    else if same kind kind_column_mask
    then splice_column_mask query body
    else err injection_failed

pub data PinFromDialect : Type 0 where
  pin_dialect_trino pin_dialect_dremio : PinFromDialect

unfoldable pub is_decimal_int : Bytes → Bool
is_decimal_int [] = false
is_decimal_int (c ∷ s) =
    if c == b'-' then not (is_empty s) && all is_digit s else is_digit c && all is_digit s

unfoldable pub pin_clause : PinFromDialect → Bytes → Bytes
pin_clause pin_dialect_trino id = codes " FOR VERSION AS OF " ++ id
pin_clause pin_dialect_dremio id = codes " AT SNAPSHOT '" ++ (id ++ codes "'")

unfoldable pub rewrite_from_for_snapshot_pin :
    Bytes → Bytes → PinFromDialect → Result SpliceError Bytes
unfolding is_decimal_int parse_select pin_clause where_clause tail_clause
rewrite_from_for_snapshot_pin query id dialect =
    if not (is_decimal_int id) then err injection_failed else do
      s ← parse_select query
      ok (
          codes "SELECT "
          ++ (s.projection
              ++ (codes " FROM "
                  ++ (s.table
                      ++ (pin_clause dialect id
                          ++ (where_clause s.where_body ++ tail_clause s.tail))))))
