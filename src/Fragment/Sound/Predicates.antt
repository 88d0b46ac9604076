-- ===== src/Fragment/Sound/Predicates.antt =====
-- The recursive descent of sql_grammar.go, from `parseOr` down, and its fuel.
use neksur.Prelude.{
  ℕ, zero, suc, ◌+◌, ◌*◌, ◌≤◌, ◌<◌, ◌≡◌, refl, false, arith, if◌then◌else◌, Bytes, codes, length,
  Bool-cases, inl, inr, ok, err, Result, ◌>>=◌, ◌⊎◌,
}
use neksur.Fragment.Ast.{Node, binary_op, row_filter}
use neksur.Fragment.Lexer.{at_end, consume, expect_keyword}
use neksur.Fragment.Literal.{Fault, parse_failed}
use neksur.Fragment.Parser.{
  parse_or, parse_or_loop, parse_and, parse_and_loop, parse_not, parse_primary, fuel_for,
  parse_row_filter,
}
use neksur.Fragment.Predicate.{IsPredicate, conjunction, disjunction, negation}
use neksur.Fragment.Shrink.{length-consume, length-expect_keyword}
use neksur.Fragment.Sound.Ensures.{Ensures, holds, rejected, Ensures-bind, Ensures-weaken}
use neksur.Fragment.Sound.Columns.{
  skip_space-skip_space, consume_absent, expect_keyword_absent, expect_keyword-skip_space,
}
use neksur.Fragment.Sound.Comparisons.{parse_comparison-Ensures}

-- NOT is still absent once the white space and an absent parenthesis are read.
still_no_not :
    (s : Bytes)
    → (expect_keyword (codes "NOT") s).0 ≡ false
    → let t = (expect_keyword (codes "NOT") s).1 in
      (consume (codes "(") t).0 ≡ false
      → (expect_keyword (codes "NOT") (consume (codes "(") t).1).0 ≡ false
still_no_not s h k =
    let t = (expect_keyword (codes "NOT") s).1 in
    rw
      (
        consume_absent (codes "(") t k,
        expect_keyword_absent (codes "NOT") s h,
        skip_space-skip_space,
      )
      (rw (expect_keyword-skip_space (codes "NOT") s) h)

closing :
    (inner : Node) (s : Bytes) {n : ℕ}
    → IsPredicate inner
    → length s < n
    → let closed = consume (codes ")") s in
      Ensures IsPredicate n (if closed.0 then ok (inner, closed.1) else err (parse_failed closed.1))
closing inner s p l = elim (Bool-cases (consume (codes ")") s).0) [
  | inl e ↦ rw e (holds p (ground (arith, length-consume (codes ")") s)))
  | inr e ↦ rw e rejected
]

mutual
  unfolding parse_or parse_or_loop parse_and parse_and_loop parse_not parse_primary

  or_holds :
      (f : ℕ) (s : Bytes) → 5 * length s + 4 ≤ f → Ensures IsPredicate (length s) (parse_or f s)
  or_holds zero s h = absurd (omega arith)
  or_holds (suc f) s h =
      Ensures-bind (and_holds f s (omega arith)) _
        λ left s1 p l. Ensures-weaken (omega arith) (or_loop_holds f left s1 p (omega arith))

  or_loop_holds :
      (f : ℕ) (left : Node) (s : Bytes)
      → IsPredicate left
      → 5 * length s + 4 ≤ f
      → Ensures IsPredicate (suc (length s)) (parse_or_loop f left s)
  or_loop_holds zero left s p h = absurd (omega arith)
  or_loop_holds (suc f) left s p h =
      let found = expect_keyword (codes "OR") s in
      elim (Bool-cases found.0) [
        | inl e ↦
            rw (parse_or_loop, e)
              (Ensures-bind
                (and_holds f found.1 (ground (arith, length-expect_keyword (codes "OR") s))) _
                λ right s2 q l.
                  Ensures-weaken (ground (arith, length-expect_keyword (codes "OR") s)) (
                    or_loop_holds f (binary_op (codes "OR") left right) s2 (disjunction p q)
                      (ground (arith, length-expect_keyword (codes "OR") s))))
        | inr e ↦
            rw (parse_or_loop, e) (holds p (ground (arith, length-expect_keyword (codes "OR") s)))
      ]

  and_holds :
      (f : ℕ) (s : Bytes) → 5 * length s + 3 ≤ f → Ensures IsPredicate (length s) (parse_and f s)
  and_holds zero s h = absurd (omega arith)
  and_holds (suc f) s h =
      Ensures-bind (not_holds f s (omega arith)) _
        λ left s1 p l. Ensures-weaken (omega arith) (and_loop_holds f left s1 p (omega arith))

  and_loop_holds :
      (f : ℕ) (left : Node) (s : Bytes)
      → IsPredicate left
      → 5 * length s + 3 ≤ f
      → Ensures IsPredicate (suc (length s)) (parse_and_loop f left s)
  and_loop_holds zero left s p h = absurd (omega arith)
  and_loop_holds (suc f) left s p h =
      let found = expect_keyword (codes "AND") s in
      elim (Bool-cases found.0) [
        | inl e ↦
            rw (parse_and_loop, e)
              (Ensures-bind
                (not_holds f found.1 (ground (arith, length-expect_keyword (codes "AND") s))) _
                λ right s2 q l.
                  Ensures-weaken (ground (arith, length-expect_keyword (codes "AND") s)) (
                    and_loop_holds f (binary_op (codes "AND") left right) s2 (conjunction p q)
                      (ground (arith, length-expect_keyword (codes "AND") s))))
        | inr e ↦
            rw (parse_and_loop, e) (holds p (ground (arith, length-expect_keyword (codes "AND") s)))
      ]

  not_holds :
      (f : ℕ) (s : Bytes) → 5 * length s + 2 ≤ f → Ensures IsPredicate (length s) (parse_not f s)
  not_holds zero s h = absurd (omega arith)
  not_holds (suc f) s h =
      let found = expect_keyword (codes "NOT") s in
      elim (Bool-cases found.0) [
        | inl e ↦
            rw (parse_not, e)
              (Ensures-bind
                (not_holds f found.1 (ground (arith, length-expect_keyword (codes "NOT") s))) _
                λ operand s2 q l.
                  holds (negation q) (ground (arith, length-expect_keyword (codes "NOT") s)))
        | inr e ↦
            rw (parse_not, e)
              (Ensures-weaken (ground (arith, length-expect_keyword (codes "NOT") s)) (
                primary_holds f found.1 (still_no_not s e)
                  (ground (arith, length-expect_keyword (codes "NOT") s))))
      ]

  primary_holds :
      (f : ℕ) (s : Bytes)
      → ((consume (codes "(") s).0 ≡ false
          → (expect_keyword (codes "NOT") (consume (codes "(") s).1).0 ≡ false)
      → 5 * length s + 1 ≤ f
      → Ensures IsPredicate (length s) (parse_primary f s)
  primary_holds zero s n h = absurd (omega arith)
  primary_holds (suc f) s n h =
      let opened = consume (codes "(") s in
      elim (Bool-cases opened.0) [
        | inl e ↦
            rw (parse_primary, e)
              (Ensures-bind (or_holds f opened.1 (ground (arith, length-consume (codes "(") s))) _
                λ inner s2 q l. closing inner s2 q (ground (arith, length-consume (codes "(") s)))
        | inr e ↦
            rw (parse_primary, e)
              (Ensures-weaken (ground (arith, length-consume (codes "(") s)) (
                parse_comparison-Ensures (suc f) opened.1 (n e)
                  (ground (arith, length-consume (codes "(") s))))
      ]

-- The recursive descent never runs out of fuel on any input, and what it returns is well formed.
pub parse_or-Ensures : (s : Bytes) → Ensures IsPredicate (length s) (parse_or (fuel_for s) s)
parse_or-Ensures s = or_holds (fuel_for s) s (omega arith)

finished :
    (root : Node) (s : Bytes)
    → IsPredicate root
    → let done = at_end s in
      ((n : Node) × ((if done.0 then ok (row_filter root) else err (parse_failed done.1))
          ≡ ok (row_filter n))
        × IsPredicate n)
      ⊎ ((unread : Bytes) × ((if done.0 then ok (row_filter root) else err (parse_failed done.1))
            ≡ err (parse_failed unread)))
finished root s p = elim (Bool-cases (at_end s).0) [
  | inl e ↦ inl (root, rw e, p)
  | inr e ↦ inr ((at_end s).1, rw e)
]

end_of :
    {n : ℕ} (m : Result Fault (Node × Bytes))
    → Ensures IsPredicate n m
    → let r = m >>= λ (root, s).
        if (at_end s).0 then ok (row_filter root) else err (parse_failed (at_end s).1) in
      ((t : Node) × (r ≡ ok (row_filter t)) × IsPredicate t)
      ⊎ ((unread : Bytes) × (r ≡ err (parse_failed unread)))
end_of _ (holds {a} {rest} p l) = finished a rest p
end_of _ (rejected {unread}) = inr (unread, refl)

-- On every input the row-filter parser ends with a well-formed predicate or with a parse error: the
-- fuel that it is given never runs out.
pub parse_row_filter-IsPredicate :
    (src : Bytes)
    → ((n : Node) × (parse_row_filter src ≡ ok (row_filter n)) × IsPredicate n)
      ⊎ ((unread : Bytes) × (parse_row_filter src ≡ err (parse_failed unread)))
unfolding parse_row_filter
parse_row_filter-IsPredicate src = end_of (parse_or (fuel_for src) src) (parse_or-Ensures src)
