-- ===== src/Dialect/Outcome.antt =====
-- The trees that internal/policy/compiler/dialect/trino.go and spark.go refuse.
use neksur.Prelude.{
  Bool, true, false, ◌||◌, List, [], ◌∷◌, Bytes, codes, same, ok, err, Result, ◌>>=◌, Bool-cases,
  inl, inr,
}
use neksur.Dialect.Ast.{
  AstNode, AstLiteral, AstMaskProject, DialectError, ast_binary_op, ast_unary_op, ast_column_ref,
  ast_literal, ast_in_list, ast_func_call,
}
use neksur.Dialect.Trino
use neksur.Dialect.Spark

-- Both runs succeed, or both fail with one error.
pub data SameOutcome {A B : Type 0} : Result DialectError A → Result DialectError B → Type 0 where
  both_ok : {a : A} {b : B} → SameOutcome (ok a) (ok b)
  both_err : {e : DialectError} → SameOutcome (err e) (err e)

SameOutcome-bind :
    {A B C D : Type 0} {r : Result DialectError A} {s : Result DialectError B}
    → SameOutcome r s
    → (f : A → Result DialectError C) (g : B → Result DialectError D)
    → ((a : A) (b : B) → SameOutcome (f a) (g b))
    → SameOutcome (r >>= f) (s >>= g)
SameOutcome-bind (both_ok {a} {b}) f g h = h a b
SameOutcome-bind both_err f g h = both_err

SameOutcome-refl : {A : Type 0} (r : Result DialectError A) → SameOutcome r r
SameOutcome-refl (ok a) = both_ok
SameOutcome-refl (err e) = both_err

literal_outcome : (v : AstLiteral) → SameOutcome (Trino.emit_literal v) (Spark.emit_literal v)
unfolding Trino.emit_literal Spark.emit_literal
literal_outcome v = SameOutcome-refl (Trino.emit_literal v)

values_outcome :
    (first : Bool) (vs : List AstLiteral)
    → SameOutcome (Trino.emit_values first vs) (Spark.emit_values first vs)
unfolding Trino.emit_values Spark.emit_values
values_outcome first [] = both_ok
values_outcome first (v ∷ vs) =
    SameOutcome-bind (literal_outcome v) _ _
      λ a b. SameOutcome-bind (values_outcome false vs) _ _ (λ c d. both_ok)

call_outcome :
    (name : Bytes) {r s : Result DialectError Bytes}
    → SameOutcome r s
    → SameOutcome (Trino.emit_call name r) (Spark.emit_call name s)
unfolding Trino.emit_call Spark.emit_call
call_outcome name o = elim (Bool-cases (same name (codes "hash"))) [
  | inl e ↦ rw e (SameOutcome-bind o _ _ (λ a b. both_ok))
  | inr e ↦
      elim (Bool-cases
        (same name (codes "lower") || same name (codes "upper") || same name (codes "length"))) [
          | inl k ↦ rw (e, k) (SameOutcome-bind o _ _ (λ a b. both_ok))
          | inr k ↦ rw (e, k) both_err
        ]
]

-- On every tree the two emitters both write a text, or both refuse it with the same error: the
-- function names on their lists are the same.
pub emit_pred-SameOutcome : (n : AstNode) → SameOutcome (Trino.emit_pred n) (Spark.emit_pred n)
unfolding Trino.emit_pred Spark.emit_pred
emit_pred-SameOutcome (ast_binary_op op l r) =
    SameOutcome-bind (emit_pred-SameOutcome l) _ _
      λ a b. SameOutcome-bind (emit_pred-SameOutcome r) _ _ (λ c d. both_ok)
emit_pred-SameOutcome (ast_unary_op op n) =
    SameOutcome-bind (emit_pred-SameOutcome n) _ _ (λ a b. both_ok)
emit_pred-SameOutcome (ast_column_ref table column) = both_ok
emit_pred-SameOutcome (ast_literal v) = literal_outcome v
emit_pred-SameOutcome (ast_in_list l vs) =
    SameOutcome-bind (emit_pred-SameOutcome l) _ _
      λ a b. SameOutcome-bind (values_outcome true vs) _ _ (λ c d. both_ok)
emit_pred-SameOutcome (ast_func_call name arg) = call_outcome name (emit_pred-SameOutcome arg)

projects_outcome :
    (ps : List AstMaskProject) → SameOutcome (Trino.emit_projects ps) (Spark.emit_projects ps)
unfolding Trino.emit_projects Spark.emit_projects
projects_outcome [] = both_ok
projects_outcome (p ∷ ps) =
    SameOutcome-bind (emit_pred-SameOutcome p.expr) _ _
      λ a b. SameOutcome-bind (projects_outcome ps) _ _ (λ c d. both_ok)

-- A column mask compiles for Trino exactly when it compiles for Spark, and otherwise both refuse it
-- with the same error.
pub compile_column_mask-SameOutcome :
    (table : Bytes) (mask : List AstMaskProject)
    → SameOutcome (Trino.compile_column_mask table mask) (Spark.compile_column_mask table mask)
unfolding Trino.compile_column_mask Spark.compile_column_mask
compile_column_mask-SameOutcome table [] = both_err
compile_column_mask-SameOutcome table (p ∷ ps) =
    SameOutcome-bind (projects_outcome (p ∷ ps)) _ _ (λ a b. both_ok)
