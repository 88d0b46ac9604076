-- ===== src/Splice/Select.antt =====
-- `parseSelect` and `validateTail` of internal/sqlproxy/dialect/splice.go.
use neksur.Prelude.{
  ℕ, Bool, true, false, not, ◌&&◌, ◌||◌, Option, none, some, List, [], ◌∷◌, ◌==◌, if◌then◌else◌,
  Bytes, codes, is_empty, span, drop, Result, ok, err, ◌>>=◌,
}
use neksur.Fragment.Lexer.{is_ident_start, is_word_char}
use neksur.Splice.Trim.{trim_space}
use neksur.Splice.Scan.{
  SpliceError, injection_failed, unsupported_query_shape, keyword_at, scan_to_keyword,
  scan_to_tail_keyword, find_keyword_at_depth0, tail_keywords,
}

pub record SelectShape : Type 0 where
  pub projection : Bytes
  pub table : Bytes
  pub where_body : Bytes
  pub tail : Bytes

-- White space of the splicer: ' ', '\t', '\n', '\r'.
unfoldable pub skip_blank : Bytes → Bytes
skip_blank [] = []
skip_blank (c ∷ s) = if c == 32 || c == 9 || c == 10 || c == 13 then skip_blank s else c ∷ s

unfoldable pub peek_keyword : Bytes → Bytes → Bool
unfolding skip_blank keyword_at
peek_keyword kw s = keyword_at kw (skip_blank s)

unfoldable pub peek_any_keyword : List Bytes → Bytes → Bool
unfolding peek_keyword
peek_any_keyword [] s = false
peek_any_keyword (kw ∷ kws) s = peek_keyword kw s || peek_any_keyword kws s

abbrev pub bytes_of : Bytes → ℕ
bytes_of [] = 0
bytes_of (_ ∷ s) = ℕ.suc (bytes_of s)

-- What follows the keyword, if it comes next.
unfoldable pub consume_keyword : Bytes → Bytes → Option Bytes
unfolding peek_keyword skip_blank
consume_keyword kw s = if peek_keyword kw s then some (drop (bytes_of kw) (skip_blank s)) else none

abbrev pub dml_keywords : List Bytes
dml_keywords = codes "INSERT" ∷ codes "UPDATE" ∷ codes "DELETE" ∷ []

abbrev pub join_keywords : List Bytes
join_keywords =
    codes "JOIN"
    ∷ codes "INNER"
    ∷ codes "LEFT"
    ∷ codes "RIGHT"
    ∷ codes "FULL"
    ∷ codes "CROSS"
    ∷ codes "OUTER"
    ∷ codes "NATURAL"
    ∷ []

abbrev pub set_keywords : List Bytes
set_keywords = codes "UNION" ∷ codes "INTERSECT" ∷ codes "EXCEPT" ∷ []

abbrev pub lead_keywords : List Bytes
lead_keywords = codes "WHERE" ∷ tail_keywords

unfoldable pub contains_any : List Bytes → Bytes → Bool
unfolding find_keyword_at_depth0
contains_any [] s = false
contains_any (kw ∷ kws) s = elim (find_keyword_at_depth0 s kw) [
  | none ↦ contains_any kws s
  | some _ ↦ true
]

unfoldable pub validate_tail : Bytes → Result SpliceError (Unit {0})
unfolding peek_any_keyword contains_any
validate_tail tail =
    if not (peek_any_keyword tail_keywords tail)
    then err unsupported_query_shape
    else if contains_any (codes "JOIN" ∷ set_keywords) tail
    then err unsupported_query_shape
    else ok tt

-- The tests on the start of the query, and what follows SELECT.
unfoldable pub parse_head : Bytes → Result SpliceError Bytes
unfolding skip_blank peek_keyword peek_any_keyword consume_keyword
parse_head query =
    let s = skip_blank query in
    if peek_keyword (codes "WITH") s
    then err unsupported_query_shape
    else if peek_any_keyword dml_keywords s
    then err unsupported_query_shape
    else elim (consume_keyword (codes "SELECT") s) [
      | none ↦ err injection_failed
      | some rest ↦ ok rest
    ]

-- The projection list, and what follows FROM.
unfoldable pub parse_projection : Bytes → Result SpliceError (Bytes × Bytes)
unfolding scan_to_keyword trim_space
parse_projection s = do
  (before, from) ← scan_to_keyword (codes "FROM") s
  let projection = trim_space before
  if is_empty projection then err injection_failed else ok (projection, drop 4 from)

-- The table name, and what follows it.
unfoldable pub parse_table : Bytes → Result SpliceError (Bytes × Bytes)
unfolding skip_blank span
parse_table s = elim (skip_blank s) [
  | [] ↦ err injection_failed
  | c ∷ t ↦
      if c == b'('
      then err unsupported_query_shape
      else if not (is_ident_start c)
      then err injection_failed
      else ok (span (λ b. is_word_char b || b == b'.') (c ∷ t))
]

-- The tests on what follows the table.
unfoldable pub check_after_table : Bytes → Result SpliceError (Unit {0})
unfolding peek_any_keyword peek_keyword
check_after_table [] = ok tt
check_after_table (c ∷ s) =
    if c == b','
    then err unsupported_query_shape
    else if peek_any_keyword join_keywords (c ∷ s)
    then err unsupported_query_shape
    else if peek_any_keyword set_keywords (c ∷ s)
    then err unsupported_query_shape
    else if not (peek_any_keyword lead_keywords (c ∷ s))
        && (peek_keyword (codes "AS") (c ∷ s) || is_ident_start c)
    then err unsupported_query_shape
    else ok tt

-- The WHERE body, empty if there is none, and the tail region.
unfoldable pub parse_where : Bytes → Bytes × Bytes
unfolding consume_keyword scan_to_tail_keyword
parse_where s = elim (consume_keyword (codes "WHERE") s) [
  | none ↦ ([], s)
  | some rest ↦ scan_to_tail_keyword rest
]

unfoldable pub parse_tail : Bytes → Result SpliceError Bytes
unfolding peek_any_keyword trim_space validate_tail
parse_tail s =
    let tail = trim_space s in
    if peek_any_keyword set_keywords s
    then err unsupported_query_shape
    else if is_empty tail
    then ok tail
    else (validate_tail tail >>= λ _. ok tail)

unfoldable pub parse_select : Bytes → Result SpliceError SelectShape
unfolding parse_head parse_projection parse_table check_after_table parse_where parse_tail
    skip_blank
parse_select query = do
  s1 ← parse_head query
  (projection, s2) ← parse_projection s1
  (table, s3) ← parse_table s2
  let s4 = skip_blank s3
  _ ← check_after_table s4
  let (where_body, s5) = parse_where s4
  tail ← parse_tail s5
  ok (record { projection = projection; table = table; where_body = where_body; tail = tail })
