-- ===== src/Fragment/Sound/Ensures.antt =====
-- Postconditions of the parsers of sql_grammar.go.
use neksur.Prelude.{ℕ, ◌≤◌, ◌<◌, arith, Bytes, length, Result, ok, err, ◌>>=◌}
use neksur.Fragment.Literal.{Fault, parse_failed}

-- The run kept within its fuel; if it returns, `P` holds of the value, and fewer than `n` bytes are
-- left.
pub data Ensures {A : Type 0} (P : A → Type 0) (n : ℕ) : Result Fault (A × Bytes) → Type 0 where
  holds : {a : A} {rest : Bytes} → P a → length rest < n → Ensures P n (ok (a, rest))
  rejected : {unread : Bytes} → Ensures P n (err (parse_failed unread))

pub Ensures-bind :
    {A B : Type 0} {P : A → Type 0} {Q : B → Type 0} {n k : ℕ} {m : Result Fault (A × Bytes)}
    → Ensures P n m
    → (f : A × Bytes → Result Fault (B × Bytes))
    → ((a : A) (rest : Bytes) → P a → length rest < n → Ensures Q k (f (a, rest)))
    → Ensures Q k (m >>= f)
Ensures-bind (holds p l) f h = h _ _ p l
Ensures-bind rejected f h = rejected

pub Ensures-weaken :
    {A : Type 0} {P : A → Type 0} {n k : ℕ} {m : Result Fault (A × Bytes)}
    → n ≤ k
    → Ensures P n m
    → Ensures P k m
Ensures-weaken h (holds p l) = holds p (omega arith)
Ensures-weaken h rejected = rejected
