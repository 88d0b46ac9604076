-- ===== src/Dialect/Reparse/Predicates.antt =====
-- Whole predicates in printed text, as sql_grammar.go reads them.
use neksur.Prelude.{
  ℕ, suc, ◌+◌, ◌-◌, ◌*◌, ◌≤◌, ◌≡◌, ap, true, false, List, [], ◌++◌, arith, Bytes, codes, subst,
  append-nil, ok, length, length-append,
}
use neksur.Fragment.Ast.{
  Node, Literal, binary_op, unary_op, column_ref, literal, in_list, row_filter,
}
use neksur.Fragment.Parser.{
  parse_or, parse_or_loop, parse_and, parse_and_loop, fuel_for, parse_row_filter,
}
use neksur.Fragment.Predicate.{
  AreLiterals, one, more, IsPredicate, conjunction, disjunction, negation, comparison, membership,
}
use neksur.Dialect.Print.{print_literal, print_column, print_values, print}
use neksur.Dialect.Reparse.Nodes.{
  later_values, Reads, negation-Reads, conjunction-Reads, disjunction-Reads, comparison-Reads,
  membership-Reads,
}

length-values : {vs : List Literal} → AreLiterals vs → length vs ≤ length (print_values true vs) + 1
unfolding print_values
length-values (one p) = omega arith
length-values (more {v} {vs} p ps) = omega (
  arith,
  length-append (print_literal v) (print_values false vs),
  ap length (later_values ps),
  length-values ps,
)

binary_length :
    (tl op tr : Bytes)
    → length (codes "(" ++ (tl ++ (codes " " ++ (op ++ (codes " " ++ (tr ++ codes ")"))))))
      ≡ length tl + length op + length tr + 4
binary_length tl op tr = omega (
  arith,
  length-append tl (codes " " ++ (op ++ (codes " " ++ (tr ++ codes ")")))),
  length-append op (codes " " ++ (tr ++ codes ")")),
  length-append tr (codes ")"),
)

-- A number from six up, as the lemmas above count it.
six :
    (P : ℕ → Type 0) (f : ℕ)
    → 6 ≤ f
    → ((g : ℕ) → f ≡ 6 + g → P (suc (suc (suc (suc (suc (suc g)))))))
    → P f
six P f h k =
    let e : suc (suc (suc (suc (suc (suc (f - 6)))))) ≡ f = omega arith in
    subst P e (k (f - 6) (omega arith))

-- Every well-formed predicate is read back from its text, on fuel for the length of the text.
pub parse_not-print :
    {n : Node} (f : ℕ) → IsPredicate n → 5 * length (print n) ≤ f → Reads f (print n) n
unfolding print
parse_not-print f (conjunction {l} {r} p q) h =
    let e = binary_length (print l) (codes "AND") (print r) in
    six (λ k. Reads k (print (binary_op (codes "AND") l r)) (binary_op (codes "AND") l r)) f
      (omega arith)
      λ g k.
        conjunction-Reads g l r (print l) (print r) (parse_not-print (suc (suc g)) p (omega arith))
          (parse_not-print (suc g) q (omega arith))
parse_not-print f (disjunction {l} {r} p q) h =
    let e = binary_length (print l) (codes "OR") (print r) in
    six (λ k. Reads k (print (binary_op (codes "OR") l r)) (binary_op (codes "OR") l r)) f
      (omega arith)
      λ g k.
        disjunction-Reads g l r (print l) (print r) (parse_not-print (suc (suc g)) p (omega arith))
          (parse_not-print (suc g) q (omega arith))
parse_not-print f (negation {n} p) h =
    let e = length-append (print n) (codes ")") in
    six (λ k. Reads k (print (unary_op (codes "NOT") n)) (unary_op (codes "NOT") n)) f (omega arith)
      λ g k. negation-Reads g n (print n) (parse_not-print (suc g) p (omega arith))
parse_not-print f (comparison {op} {table} {column} {v} o c l) h =
    let e = binary_length (print_column table column) op (print_literal v) in
    six
      (λ k.
        Reads k (print (binary_op op (column_ref table column) (literal v)))
          (binary_op op (column_ref table column) (literal v)))
      f (omega arith) λ g k. comparison-Reads g o c l
parse_not-print f (membership {table} {column} {vs} c ls) h =
    let e =
      length-append (print_column table column)
        (codes " IN (" ++ (print_values true vs ++ codes ")")) in
    let e2 = length-append (print_values true vs) (codes ")") in
    six
      (λ k.
        Reads k (print (in_list (column_ref table column) vs))
          (in_list (column_ref table column) vs))
      f (omega arith)
      λ g k. membership-Reads (suc (suc (suc (suc g)))) c ls (omega (arith, length-values ls))

parse_or-print :
    {n : Node} (g : ℕ)
    → IsPredicate n
    → 5 * length (print n) ≤ suc g
    → parse_or (suc (suc (suc g))) (print n) ≡ ok (n, [])
unfolding parse_or parse_and parse_and_loop parse_or_loop
parse_or-print {n} g p h = rw (rw append-nil at (parse_not-print (suc g) p h []))

-- A well-formed predicate is read back from its text.
pub parse_row_filter-print :
    {n : Node} → IsPredicate n → parse_row_filter (print n) ≡ ok (row_filter n)
unfolding parse_row_filter
parse_row_filter-print {n} p =
    let e : fuel_for (print n) ≡ suc (suc (suc (5 * length (print n) + 2))) = omega arith in
    rw (e, parse_or-print (5 * length (print n) + 2) p (omega arith))
