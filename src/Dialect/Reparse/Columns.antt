-- ===== src/Dialect/Reparse/Columns.antt =====
-- Columns and comparisons in printed text, as sql_grammar.go reads them.
use neksur.Prelude.{
  ℕ, ◌≡◌, refl, Option, none, some, ap, ◌∙◌, Bool, true, false, ◌&&◌, not, [], ◌∷◌, ◌++◌, ◌==◌,
  arith, Bytes, codes, append_assoc, ok, err, Result, ◌>>=◌, is_space,
}
use neksur.Fragment.Ast.{Node, Literal, binary_op, column_ref, literal}
use neksur.Fragment.Lexer.{consume, expect_keyword}
use neksur.Fragment.Literal.{Fault, parse_failed, parse_literal}
use neksur.Fragment.Parser.{
  column_rest, parse_column_ref, parse_value, comparison_rest, parse_comparison,
}
use neksur.Fragment.Predicate.{
  is_ident, IsColumn, bare, qualified, IsLiteral, IsComparison, eq, ne, differs, le, ge, lt, gt,
  like,
}
use neksur.Dialect.Print.{print_literal, print_column}
use neksur.Dialect.Reparse.Words.{expect_ident-ident, expect_keyword-other, consume-word}
use neksur.Dialect.Reparse.Literals.{parse_literal-print}

dotted :
    (table column rest : Bytes)
    → (table ++ (codes "." ++ column)) ++ rest ≡ table ++ (codes "." ++ (column ++ rest))
dotted table column rest = append_assoc table (codes "." ++ column) rest

-- The byte that stands behind the space after a column: an operator begins with it.
abbrev pub begins_operator : ℕ → Bool
begins_operator o = not (is_space o) && not (o == b'.')

no_dot :
    (o : ℕ) (s : Bytes)
    → begins_operator o ≡ true
    → consume (codes ".") (b' ' ∷ o ∷ s) ≡ (false, o ∷ s)
unfolding consume
no_dot o s h = ground arith

comparison_rest-space :
    (f : ℕ) (left : Node) (s : Bytes) → comparison_rest f left (b' ' ∷ s) ≡ comparison_rest f left s
unfolding comparison_rest
comparison_rest-space f left s = refl

abbrev column_after : Option Bytes × Bytes → Result Fault (Node × Bytes)
column_after found = elim found.0 [
  | none ↦ err (parse_failed found.1)
  | some name ↦ column_rest name found.1
]

abbrev operator_after : ℕ → Result Fault (Node × Bytes) → Result Fault (Node × Bytes)
operator_after f r = r >>= λ (left, s1). comparison_rest f left s1

abbrev second_after : Bytes → Option Bytes × Bytes → Result Fault (Node × Bytes)
second_after id1 found = elim found.0 [
  | none ↦ err (parse_failed found.1)
  | some name ↦ ok (column_ref id1 name, found.1)
]

module _ (o : ℕ) (s : Bytes) (begins : begins_operator o ≡ true) where
  pub not_absent :
      {table column : Bytes}
      → IsColumn table column
      → expect_keyword (codes "NOT") (print_column table column ++ b' ' ∷ o ∷ s)
        ≡ (false, print_column table column ++ b' ' ∷ o ∷ s)
  unfolding print_column
  not_absent (bare {column} h k) =
      expect_keyword-other (codes "NOT") column (b' ' ∷ o ∷ s) refl h refl k
  not_absent (qualified {table = []} {column} h k h2) = cc
  not_absent (qualified {table = c ∷ table} {column} h k h2) =
      rw (dotted (c ∷ table) column (b' ' ∷ o ∷ s)) (
        expect_keyword-other (codes "NOT") (c ∷ table) (codes "." ++ (column ++ b' ' ∷ o ∷ s)) refl
          h refl k)

  pub no_parenthesis :
      {table column : Bytes}
      → IsColumn table column
      → consume (codes "(") (print_column table column ++ b' ' ∷ o ∷ s)
        ≡ (false, print_column table column ++ b' ' ∷ o ∷ s)
  unfolding print_column
  no_parenthesis (bare {column} h k) = consume-word column (b' ' ∷ o ∷ s) h
  no_parenthesis (qualified {table = []} {column} h k h2) = cc
  no_parenthesis (qualified {table = c ∷ table} {column} h k h2) =
      rw (dotted (c ∷ table) column (b' ' ∷ o ∷ s))
        (consume-word (c ∷ table) (codes "." ++ (column ++ b' ' ∷ o ∷ s)) h)

  column_rest_bare : (id : Bytes) → column_rest id (b' ' ∷ o ∷ s) ≡ ok (column_ref [] id, o ∷ s)
  unfolding column_rest
  column_rest_bare id = ground (arith, no_dot o s begins)

  parse_column_ref_bare :
      (column : Bytes)
      → is_ident column ≡ true
      → parse_column_ref (column ++ b' ' ∷ o ∷ s) ≡ ok (column_ref [] column, o ∷ s)
  unfolding parse_column_ref
  parse_column_ref_bare column h =
      ap column_after (expect_ident-ident column (b' ' ∷ o ∷ s) h refl) ∙ column_rest_bare column

  column_rest_qualified :
      (table column : Bytes)
      → is_ident column ≡ true
      → column_rest table (codes "." ++ (column ++ b' ' ∷ o ∷ s))
        ≡ ok (column_ref table column, b' ' ∷ o ∷ s)
  unfolding column_rest
  column_rest_qualified table column h =
      ap (second_after table) (expect_ident-ident column (b' ' ∷ o ∷ s) h refl)

  parse_column_ref_qualified :
      (table column : Bytes)
      → is_ident table ≡ true
      → is_ident column ≡ true
      → parse_column_ref (table ++ (codes "." ++ (column ++ b' ' ∷ o ∷ s)))
        ≡ ok (column_ref table column, b' ' ∷ o ∷ s)
  unfolding parse_column_ref
  parse_column_ref_qualified table column h h2 =
      ap column_after (expect_ident-ident table (codes "." ++ (column ++ b' ' ∷ o ∷ s)) h refl)
      ∙ column_rest_qualified table column h2

  -- After a printed column the operator is read next.
  pub parse_comparison-column :
      (f : ℕ) {table column : Bytes}
      → IsColumn table column
      → parse_comparison f (print_column table column ++ b' ' ∷ o ∷ s)
        ≡ comparison_rest f (column_ref table column) (o ∷ s)
  unfolding print_column parse_comparison
  parse_comparison-column f (bare {column} h k) =
      ap (operator_after f) (parse_column_ref_bare column h)
  parse_comparison-column f (qualified {table = []} {column} h k h2) = cc
  parse_comparison-column f (qualified {table = c ∷ table} {column} h k h2) =
      ap (λ x. parse_comparison f x) (dotted (c ∷ table) column (b' ' ∷ o ∷ s))
      ∙ ap (operator_after f) (parse_column_ref_qualified (c ∷ table) column h h2)
      ∙ comparison_rest-space f (column_ref (c ∷ table) column) (o ∷ s)

-- A printed operator is read, and its value comes next.
comparison_rest-operator :
    (f : ℕ) (left : Node) (s : Bytes) {op : Bytes}
    → IsComparison op
    → comparison_rest f left (op ++ b' ' ∷ s)
      ≡ (parse_value s >>= λ (v, rest). ok (binary_op op left v, rest))
unfolding comparison_rest parse_value parse_literal
comparison_rest-operator f left s eq = refl
comparison_rest-operator f left s ne = refl
comparison_rest-operator f left s differs = refl
comparison_rest-operator f left s le = refl
comparison_rest-operator f left s ge = refl
comparison_rest-operator f left s lt = refl
comparison_rest-operator f left s gt = refl
comparison_rest-operator f left s like = refl

-- A comparison is read back, up to the parenthesis behind it.
pub parse_comparison-comparison :
    (f : ℕ) (rest : Bytes) {op table column : Bytes} {v : Literal}
    → IsComparison op
    → IsColumn table column
    → IsLiteral v
    → parse_comparison f
        (print_column table column ++ b' ' ∷ (op ++ b' ' ∷ (print_literal v ++ b')' ∷ rest)))
      ≡ ok (binary_op op (column_ref table column) (literal v), b')' ∷ rest)
unfolding parse_value
parse_comparison-comparison f rest {op} {table} {column} {v} p c l =
    at_operator p
    ∙ comparison_rest-operator f (column_ref table column) tail p
    ∙ ap
        (λ r. (r >>= λ (lit, s). ok (literal lit, s)) >>= λ (w, s).
          ok (binary_op op (column_ref table column) w, s))
        (parse_literal-print b')' rest refl l)
  where
    tail : Bytes
    tail = print_literal v ++ b')' ∷ rest

    at_operator :
        {op : Bytes}
        → IsComparison op
        → parse_comparison f (print_column table column ++ b' ' ∷ (op ++ b' ' ∷ tail))
          ≡ comparison_rest f (column_ref table column) (op ++ b' ' ∷ tail)
    at_operator eq = parse_comparison-column b'=' (b' ' ∷ tail) refl f c
    at_operator ne = parse_comparison-column b'!' (b'=' ∷ b' ' ∷ tail) refl f c
    at_operator differs = parse_comparison-column b'<' (b'>' ∷ b' ' ∷ tail) refl f c
    at_operator le = parse_comparison-column b'<' (b'=' ∷ b' ' ∷ tail) refl f c
    at_operator ge = parse_comparison-column b'>' (b'=' ∷ b' ' ∷ tail) refl f c
    at_operator lt = parse_comparison-column b'<' (b' ' ∷ tail) refl f c
    at_operator gt = parse_comparison-column b'>' (b' ' ∷ tail) refl f c
    at_operator like = parse_comparison-column b'L' (b'I' ∷ b'K' ∷ b'E' ∷ b' ' ∷ tail) refl f c
