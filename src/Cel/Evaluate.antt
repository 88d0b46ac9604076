-- ===== src/Cel/Evaluate.antt =====
-- `Evaluate` of internal/policy/cel/eval.go. The compiler and the programs are cel-go's: an argument
-- says what compiling and running a policy's text on the inputs comes to.
use neksur.Prelude.{true, false, Option, none, some, Bytes, Result, ok, err}
use neksur.Cel.Value.{Any, any_bool, Fields}

pub record Policy : Type 0 where
  pub id : Bytes
  pub kind : Bytes
  pub text : Bytes

pub record Inputs : Type 0 where
  pub table : Fields
  pub commit : Fields
  pub principal : Fields

pub data Action : Type 0 where
  action_allow : Action
  action_deny : Action

-- The causes of an `EvalError`.
pub data EvalError : Type 0 where
  not_compiled : EvalError
  eval_failed : EvalError
  eval_panic : EvalError
  returned_non_bool : EvalError

-- How the run of a program ends: with a value, with an error, which the deadline can cause, or with a
-- panic.
pub data Run : Type 0 where
  returned : Any → Run
  failed : Run
  panicked : Run

-- `CompileOrGet` and `ContextEval`.
pub record Runtime : Type 0 where
  pub compile_or_get : Bytes → Bytes → Option (Inputs → Run)

unfoldable pub decide : Any → Result EvalError Action
decide (any_bool true) = ok action_allow
decide (any_bool false) = ok action_deny
decide _ = err returned_non_bool

unfoldable pub evaluate : Runtime → Policy → Inputs → Result EvalError Action
unfolding decide
evaluate rt p inputs = elim (rt.compile_or_get p.id p.text) [
  | none ↦ err not_compiled
  | some prog ↦ elim (prog inputs) [
    | returned v ↦ decide v
    | failed ↦ err eval_failed
    | panicked ↦ err eval_panic
  ]
]
