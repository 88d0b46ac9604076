-- ===== src/Dialect/SparkText.antt =====
-- The portable text against what internal/policy/compiler/dialect/spark.go writes.
use neksur.Prelude.{◌≡◌, refl, Bool, List, ok, map}
use neksur.Fragment.Ast.{Node, Literal}
use neksur.Fragment.Predicate.{
  IsLiteral, a_string, a_number, a_null, AreLiterals, one, more, IsPredicate, conjunction,
  disjunction, negation, comparison, membership,
}
use neksur.Dialect.Ast.{adapt_literal, adapt_node_for_dialect}
use neksur.Dialect.Print.{print, print_literal, print_column, print_values}
use neksur.Dialect.Spark.{emit_column, emit_literal, emit_values, emit_pred}

literal_text : {v : Literal} → IsLiteral v → emit_literal (adapt_literal v) ≡ ok (print_literal v)
unfolding emit_literal print_literal
literal_text (a_string p) = refl
literal_text (a_number p) = refl
literal_text a_null = refl

values_text :
    (first : Bool) {vs : List Literal}
    → AreLiterals vs
    → emit_values first (map adapt_literal vs) ≡ ok (print_values first vs)
unfolding emit_values print_values
values_text first (one p) = rw (literal_text p)
values_text first (more p ps) = rw (literal_text p, values_text Bool.false ps)

-- What the emitter writes for a well-formed predicate.
pub emit_pred-print :
    {n : Node} → IsPredicate n → emit_pred (adapt_node_for_dialect n) ≡ ok (print n)
unfolding adapt_node_for_dialect emit_pred print emit_column print_column
emit_pred-print (conjunction p q) = rw (emit_pred-print p, emit_pred-print q)
emit_pred-print (disjunction p q) = rw (emit_pred-print p, emit_pred-print q)
emit_pred-print (negation p) = rw (emit_pred-print p)
emit_pred-print (comparison o c v) = rw (literal_text v)
emit_pred-print (membership c vs) = rw (values_text Bool.true vs)
