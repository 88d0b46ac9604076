-- ===== src/Fragment/Sound/Comparisons.antt =====
-- Comparisons and IN lists of sql_grammar.go: what `parseComparison` returns.
use neksur.Prelude.{
  ℕ, zero, suc, ◌≤◌, ◌<◌, ◌≡◌, false, Option, none, some, List, [], ◌∷◌, arith, if◌then◌else◌,
  Bytes, codes, length, Bool-cases, inl, inr, ok, err, ◌>>=◌,
}
use neksur.Fragment.Ast.{Node, Literal, binary_op, literal, in_list}
use neksur.Fragment.Lexer.{consume, expect_keyword}
use neksur.Fragment.Literal.{parse_failed}
use neksur.Fragment.Parser.{
  parse_value, parse_in_list, symbol_ops, first_symbol, comparison_rest, parse_comparison,
}
use neksur.Fragment.Predicate.{
  IsLiteral, IsComparison, eq, ne, differs, le, ge, lt, gt, like, AreLiterals, one, more,
  IsPredicate, comparison, membership,
}
use neksur.Fragment.Shrink.{length-consume, length-expect_keyword}
use neksur.Fragment.Sound.Ensures.{Ensures, holds, rejected, Ensures-bind, Ensures-weaken}
use neksur.Fragment.Sound.Literals.{parse_literal-Ensures}
use neksur.Fragment.Sound.Columns.{IsColumnNode, column, parse_column_ref-Ensures}

parse_in_list-Ensures :
    (f : ℕ) (s : Bytes) → length s < f → Ensures AreLiterals (length s) (parse_in_list f s)
unfolding parse_in_list
parse_in_list-Ensures zero s h = elim h [ ]
parse_in_list-Ensures (suc f) s h = Ensures-bind (parse_literal-Ensures s) _ λ lit s1 v l.
    let closed = consume (codes ")") s1 in
    let comma = consume (codes ",") closed.1 in
    elim (Bool-cases closed.0) [
      | inl e ↦ rw e (holds (one v) (ground (arith, length-consume (codes ")") s1)))
      | inr e ↦ elim (Bool-cases comma.0) [
        | inl k ↦
            rw (e, k)
              (Ensures-bind
                (parse_in_list-Ensures f comma.1 (
                  ground
                    (arith, length-consume (codes ")") s1, length-consume (codes ",") closed.1)))
                _
                λ lits rest vs m. holds (more v vs) (
                  ground
                    (arith, length-consume (codes ")") s1, length-consume (codes ",") closed.1)))
        | inr k ↦ rw (e, k) rejected
      ]
    ]

abbrev AreComparisons : List Bytes → Type 0
AreComparisons [] = Unit
AreComparisons (op ∷ ops) = IsComparison op × AreComparisons ops

abbrev SymbolAt : ℕ → Option Bytes × Bytes → Type 0
SymbolAt n (none, rest) = length rest ≤ n
SymbolAt n (some op, rest) = IsComparison op × (length rest ≤ n)

first_symbol-SymbolAt :
    (ops s : _) {n : ℕ} → AreComparisons ops → length s ≤ n → SymbolAt n (first_symbol ops s)
unfolding first_symbol
first_symbol-SymbolAt [] s h l = l
first_symbol-SymbolAt (op ∷ ops) s h l =
    let found = consume op s in
    elim (Bool-cases found.0) [
      | inl e ↦ rw (first_symbol, e) (h.0, ground (arith, length-consume op s))
      | inr e ↦
          rw (first_symbol, e)
            (first_symbol-SymbolAt ops found.1 h.1 (ground (arith, length-consume op s)))
    ]

data IsValueNode : Node → Type 0 where
  value : {v : Literal} → IsLiteral v → IsValueNode (literal v)

parse_value-Ensures : (s : Bytes) → Ensures IsValueNode (length s) (parse_value s)
unfolding parse_value
parse_value-Ensures s = Ensures-bind (parse_literal-Ensures s) _ (λ lit rest v l. holds (value v) l)

compared :
    {op : Bytes} {left v : Node}
    → IsComparison op
    → IsColumnNode left
    → IsValueNode v
    → IsPredicate (binary_op op left v)
compared p (column c) (value w) = comparison p c w

listed :
    {left : Node} {vs : List Literal}
    → IsColumnNode left
    → AreLiterals vs
    → IsPredicate (in_list left vs)
listed (column c) vs = membership c vs

-- An operator and its value, after a column.
value-Ensures :
    (op s : Bytes) {left : Node} {n : ℕ}
    → IsComparison op
    → IsColumnNode left
    → length s ≤ n
    → Ensures IsPredicate n (parse_value s >>= λ (v, rest). ok (binary_op op left v, rest))
value-Ensures op s p c l =
    Ensures-bind (parse_value-Ensures s) _ λ v rest w m. holds (compared p c w) (omega arith)

keyword_ops :
    (f : ℕ) (left : Node) (s1 : Bytes) {n : ℕ}
    → IsColumnNode left
    → length s1 < f
    → length s1 ≤ n
    → let is_in = expect_keyword (codes "IN") s1 in
      let opened = consume (codes "(") is_in.1 in
      let is_like = expect_keyword (codes "LIKE") is_in.1 in
      Ensures IsPredicate n (
        if is_in.0
        then (if opened.0
            then parse_in_list f opened.1 >>= (λ (lits, rest). ok (in_list left lits, rest))
            else err (parse_failed opened.1))
        else if is_like.0
        then parse_value is_like.1 >>= (λ (v, rest). ok (binary_op (codes "LIKE") left v, rest))
        else err (parse_failed is_like.1))
keyword_ops f left s1 c lf ln =
    let is_in = expect_keyword (codes "IN") s1 in
    let opened = consume (codes "(") is_in.1 in
    let is_like = expect_keyword (codes "LIKE") is_in.1 in
    elim (Bool-cases is_in.0) [
      | inl e ↦ elim (Bool-cases opened.0) [
        | inl k ↦
            rw (e, k)
              (Ensures-bind
                (parse_in_list-Ensures f opened.1 (
                  ground (
                    arith,
                    length-expect_keyword (codes "IN") s1,
                    length-consume (codes "(") is_in.1,
                  )))
                _
                λ lits rest vs m. holds (listed c vs) (
                  ground (
                    arith,
                    length-expect_keyword (codes "IN") s1,
                    length-consume (codes "(") is_in.1,
                  )))
        | inr k ↦ rw (e, k) rejected
      ]
      | inr e ↦ elim (Bool-cases is_like.0) [
        | inl k ↦
            rw (e, k)
              (value-Ensures (codes "LIKE") is_like.1 like c (
                ground (
                  arith,
                  length-expect_keyword (codes "IN") s1,
                  length-expect_keyword (codes "LIKE") is_in.1,
                )))
        | inr k ↦ rw (e, k) rejected
      ]
    ]

operator_at :
    (f : ℕ) (left : Node) (symbol : Option Bytes × Bytes) {n : ℕ}
    → IsColumnNode left
    → n < f
    → SymbolAt n symbol
    → let is_in = expect_keyword (codes "IN") symbol.1 in
      let opened = consume (codes "(") is_in.1 in
      let is_like = expect_keyword (codes "LIKE") is_in.1 in
      Ensures IsPredicate n (elim symbol.0 [
        | some op ↦ parse_value symbol.1 >>= λ (v, rest). ok (binary_op op left v, rest)
        | none ↦
            if is_in.0
            then (if opened.0
                then parse_in_list f opened.1 >>= (λ (lits, rest). ok (in_list left lits, rest))
                else err (parse_failed opened.1))
            else if is_like.0
            then parse_value is_like.1 >>= (λ (v, rest). ok (binary_op (codes "LIKE") left v, rest))
            else err (parse_failed is_like.1)
      ])
operator_at f left (some op, rest) c lf h = value-Ensures op rest h.0 c h.1
operator_at f left (none, rest) c lf h = keyword_ops f left rest c (omega arith) h

comparison_rest-Ensures :
    (f : ℕ) (left : Node) (s : Bytes)
    → IsColumnNode left
    → length s < f
    → Ensures IsPredicate (length s) (comparison_rest f left s)
unfolding comparison_rest
comparison_rest-Ensures f left s c lf = operator_at f left (first_symbol symbol_ops s) c lf (
    first_symbol-SymbolAt symbol_ops s (eq, (ne, (differs, (le, (ge, (lt, (gt, tt)))))))
      (omega arith))

pub parse_comparison-Ensures :
    (f : ℕ) (s : Bytes)
    → (expect_keyword (codes "NOT") s).0 ≡ false
    → length s ≤ f
    → Ensures IsPredicate (length s) (parse_comparison f s)
unfolding parse_comparison
parse_comparison-Ensures f s h l =
    Ensures-bind (parse_column_ref-Ensures s h) _ λ left s1 c m.
      Ensures-weaken (omega arith) (comparison_rest-Ensures f left s1 c (omega arith))
