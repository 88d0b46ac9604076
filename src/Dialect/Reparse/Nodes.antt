-- ===== src/Dialect/Reparse/Nodes.antt =====
-- One node of a printed predicate, given how its parts are read, as sql_grammar.go reads it.
use neksur.Prelude.{
  ℕ, zero, suc, ◌≤◌, ◌≡◌, refl, ap, ◌∙◌, Bool, true, false, List, ◌∷◌, ◌++◌, arith, if◌then◌else◌,
  Bytes, codes, append_assoc, append-nil, ok, err, Result, ◌>>=◌, length,
}
use neksur.Fragment.Ast.{Node, Literal, binary_op, unary_op, column_ref, literal, in_list}
use neksur.Fragment.Lexer.{consume}
use neksur.Fragment.Literal.{Fault, parse_failed, parse_literal}
use neksur.Fragment.Parser.{
  parse_in_list, comparison_rest, parse_comparison, parse_or, parse_or_loop, parse_and,
  parse_and_loop, parse_not, parse_primary,
}
use neksur.Fragment.Predicate.{
  IsColumn, IsLiteral, AreLiterals, one, more, IsComparison, eq, ne, differs, le, ge, lt, gt, like,
}
use neksur.Dialect.Print.{print_literal, print_column, print_values}
use neksur.Dialect.Reparse.Literals.{parse_literal-print}
use neksur.Dialect.Reparse.Columns.{
  not_absent, no_parenthesis, parse_comparison-column, parse_comparison-comparison, begins_operator,
}

parse_in_list-space : (f : ℕ) (s : Bytes) → parse_in_list f (b' ' ∷ s) ≡ parse_in_list f s
unfolding parse_in_list parse_literal
parse_in_list-space zero s = refl
parse_in_list-space (suc f) s = refl

pub later_values :
    {vs : List Literal}
    → AreLiterals vs
    → print_values false vs ≡ b',' ∷ b' ' ∷ print_values true vs
unfolding print_values
later_values (one p) = refl
later_values (more p ps) = refl

-- The values of an IN list are read back, up to what stands behind its parenthesis.
parse_in_list-values :
    (f : ℕ) (rest : Bytes) {vs : List Literal}
    → AreLiterals vs
    → length vs ≤ f
    → parse_in_list f (print_values true vs ++ b')' ∷ rest) ≡ ok (vs, rest)
unfolding parse_in_list print_values
parse_in_list-values zero rest (one p) h = absurd (omega arith)
parse_in_list-values zero rest (more p ps) h = absurd (omega arith)
parse_in_list-values (suc f) rest (one {v} p) h =
    rw (append-nil (print_literal v), parse_literal-print b')' rest refl p)
parse_in_list-values (suc f) rest (more {v} {vs} p ps) h =
    let tail = print_values true vs ++ b')' ∷ rest in
    rw (
      append_assoc (print_literal v) (print_values false vs) (b')' ∷ rest),
      later_values ps,
      parse_literal-print b',' (b' ' ∷ tail) refl p,
      parse_in_list-space f tail,
      parse_in_list-values f rest ps (omega arith),
    )

parse_not-space : (f : ℕ) (s : Bytes) → parse_not f (b' ' ∷ s) ≡ parse_not f s
unfolding parse_not
parse_not-space zero s = refl
parse_not-space (suc f) s = refl

-- `text` is read back as `n` on `f` units of fuel, whatever stands behind it.
abbrev pub Reads : ℕ → Bytes → Node → Type 0
Reads f text n = (rest : Bytes) → parse_not f (text ++ rest) ≡ ok (n, rest)

module _ (f : ℕ) where
  abbrev not_after : Bool × Bytes → Result Fault (Node × Bytes)
  not_after found = elim found.0 [
    | false ↦ parse_primary f found.1
    | true ↦ parse_not f found.1 >>= λ (operand, s2). ok (unary_op (codes "NOT") operand, s2)
  ]

  abbrev primary_after : Bool × Bytes → Result Fault (Node × Bytes)
  primary_after opened = elim opened.0 [
    | false ↦ parse_comparison (suc f) opened.1
    | true ↦ parse_or f opened.1 >>= λ (inner, s2).
        let (closed, s3) = consume (codes ")") s2 in
        if closed then ok (inner, s3) else err (parse_failed s3)
  ]

module _ (f : ℕ) where
  pub negation-Reads :
      (n : Node) (t : Bytes)
      → Reads (suc f) t n
      → Reads
          (suc (suc (suc (suc (suc (suc f))))))
          (codes "(" ++ (codes "NOT" ++ (codes " " ++ (t ++ codes ")"))))
          (unary_op (codes "NOT") n)
  unfolding parse_not parse_primary parse_or parse_and parse_and_loop parse_or_loop
  negation-Reads n t read rest = rw (
    append_assoc t (codes ")") rest,
    parse_not-space (suc f) (t ++ b')' ∷ rest),
    read (b')' ∷ rest),
  )

  pub conjunction-Reads :
      (l r : Node) (tl tr : Bytes)
      → Reads (suc (suc f)) tl l
      → Reads (suc f) tr r
      → Reads
          (suc (suc (suc (suc (suc (suc f))))))
          (codes "(" ++ (tl ++ (codes " " ++ (codes "AND" ++ (codes " " ++ (tr ++ codes ")"))))))
          (binary_op (codes "AND") l r)
  unfolding parse_not parse_primary parse_or parse_and parse_and_loop parse_or_loop
  conjunction-Reads l r tl tr readl readr rest =
      let after = tr ++ b')' ∷ rest in
      rw (
        append_assoc tl (codes " AND " ++ (tr ++ codes ")")) rest,
        append_assoc tr (codes ")") rest,
        readl (codes " AND " ++ after),
        parse_not-space (suc f) after,
        readr (b')' ∷ rest),
      )

  pub disjunction-Reads :
      (l r : Node) (tl tr : Bytes)
      → Reads (suc (suc f)) tl l
      → Reads (suc f) tr r
      → Reads
          (suc (suc (suc (suc (suc (suc f))))))
          (codes "(" ++ (tl ++ (codes " " ++ (codes "OR" ++ (codes " " ++ (tr ++ codes ")"))))))
          (binary_op (codes "OR") l r)
  unfolding parse_not parse_primary parse_or parse_and parse_and_loop parse_or_loop
  disjunction-Reads l r tl tr readl readr rest =
      let after = tr ++ b')' ∷ rest in
      rw (
        append_assoc tl (codes " OR " ++ (tr ++ codes ")")) rest,
        append_assoc tr (codes ")") rest,
        readl (codes " OR " ++ after),
        parse_not-space (suc f) after,
        readr (b')' ∷ rest),
      )

  -- A comparison behind no operator NOT and no parenthesis.
  bare_reads :
      {table column : Bytes} (o : ℕ) (s : Bytes)
      → begins_operator o ≡ true
      → IsColumn table column
      → parse_not (suc (suc f)) (print_column table column ++ b' ' ∷ o ∷ s)
        ≡ parse_comparison (suc f) (print_column table column ++ b' ' ∷ o ∷ s)
  unfolding parse_not parse_primary
  bare_reads o s b c =
      ap (not_after (suc f)) (not_absent o s b c) ∙ ap (primary_after f) (no_parenthesis o s b c)

  pub comparison-Reads :
      {op table column : Bytes} {v : Literal}
      → IsComparison op
      → IsColumn table column
      → IsLiteral v
      → Reads
          (suc (suc (suc (suc (suc (suc f))))))
          (codes "("
            ++ (print_column table column
                ++ (codes " " ++ (op ++ (codes " " ++ (print_literal v ++ codes ")"))))))
          (binary_op op (column_ref table column) (literal v))
  unfolding parse_not parse_primary parse_or parse_and parse_and_loop parse_or_loop
  comparison-Reads {op} {table} {column} {v} p c l rest = rw (
    append_assoc (print_column table column)
        (codes " " ++ (op ++ (codes " " ++ (print_literal v ++ codes ")")))) rest,
    append_assoc op (codes " " ++ (print_literal v ++ codes ")")) rest,
    append_assoc (print_literal v) (codes ")") rest,
    operator_bare p,
    parse_comparison-comparison (suc f) rest p c l,
  )
    where
      operator_bare :
          {op : Bytes}
          → IsComparison op
          → parse_not
              (suc (suc f))
              (print_column table column ++ b' ' ∷ (op ++ b' ' ∷ (print_literal v ++ b')' ∷ rest)))
            ≡ parse_comparison (suc f) (
                print_column table column ++ b' ' ∷ (op ++ b' ' ∷ (print_literal v ++ b')' ∷ rest)))
      operator_bare eq = bare_reads b'=' (b' ' ∷ (print_literal v ++ b')' ∷ rest)) refl c
      operator_bare ne = bare_reads b'!' (b'=' ∷ b' ' ∷ (print_literal v ++ b')' ∷ rest)) refl c
      operator_bare differs =
          bare_reads b'<' (b'>' ∷ b' ' ∷ (print_literal v ++ b')' ∷ rest)) refl c
      operator_bare le = bare_reads b'<' (b'=' ∷ b' ' ∷ (print_literal v ++ b')' ∷ rest)) refl c
      operator_bare ge = bare_reads b'>' (b'=' ∷ b' ' ∷ (print_literal v ++ b')' ∷ rest)) refl c
      operator_bare lt = bare_reads b'<' (b' ' ∷ (print_literal v ++ b')' ∷ rest)) refl c
      operator_bare gt = bare_reads b'>' (b' ' ∷ (print_literal v ++ b')' ∷ rest)) refl c
      operator_bare like =
          bare_reads b'L' (b'I' ∷ b'K' ∷ b'E' ∷ b' ' ∷ (print_literal v ++ b')' ∷ rest)) refl c

  pub membership-Reads :
      {table column : Bytes} {vs : List Literal}
      → IsColumn table column
      → AreLiterals vs
      → length vs ≤ suc f
      → Reads
          (suc (suc f))
          (print_column table column ++ (codes " IN (" ++ (print_values true vs ++ codes ")")))
          (in_list (column_ref table column) vs)
  unfolding comparison_rest
  membership-Reads {table} {column} {vs} c l h rest =
      let tail = b'N' ∷ b' ' ∷ b'(' ∷ (print_values true vs ++ b')' ∷ rest) in
      rw (
        append_assoc (print_column table column)
            (codes " IN (" ++ (print_values true vs ++ codes ")")) rest,
        append_assoc (print_values true vs) (codes ")") rest,
        bare_reads b'I' tail refl c,
        parse_comparison-column b'I' tail refl (suc f) c,
        parse_in_list-values (suc f) rest l h,
      )
