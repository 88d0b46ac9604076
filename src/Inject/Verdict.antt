-- ===== src/Inject/Verdict.antt =====
-- What a request against a list of compiled rows may end in, said without the loops of
-- internal/sqlproxy/dialect, and the loops of Inject/Rows in those words.
use neksur.Prelude.{
  ◌≡◌, refl, ap, Bool, true, false, not, Option, none, some, List, [], ◌∷◌, ◌++◌, Bytes, all,
  Result, err, Bool-cases, inl, inr,
}
use neksur.Inject.Model.{CompiledPolicy, InjectError, policy_engine_unavailable, spliced, entry_of}
use neksur.Inject.Rows.{is_suspended, is_eligible, any_suspended, first_eligible}

abbrev pub none_of : {A : Type 0} → (A → Bool) → List A → Bool
none_of p xs = all (λ x. not (p x)) xs

-- `o` is the first element that passes the test, if there is one.
pub data IsFirst {A : Type 0} (p : A → Bool) (xs : List A) : Option A → Type 0 where
  passed : none_of p xs ≡ true → IsFirst p xs none
  cut :
      (before : List A) (x : A) (after : List A)
      → xs ≡ before ++ (x ∷ after)
      → none_of p before ≡ true
      → p x ≡ true
      → IsFirst p xs (some x)

pub IsFirst-skip :
    {A : Type 0} (p : A → Bool) (x : A) (xs : List A) {o : Option A}
    → p x ≡ false
    → IsFirst p xs o
    → IsFirst p (x ∷ xs) o
IsFirst-skip p x xs e (passed h) = passed (rw e h)
IsFirst-skip p x xs e (cut before y after q h k) =
    cut (x ∷ before) y after (ap (◌∷◌ x) q) (rw e h) k

pub first_eligible-IsFirst :
    (engine : Bytes) (rows : List CompiledPolicy)
    → IsFirst (is_eligible engine) rows (first_eligible engine rows)
unfolding first_eligible
first_eligible-IsFirst engine [] = passed refl
first_eligible-IsFirst engine (row ∷ rows) = elim (Bool-cases (is_eligible engine row)) [
  | inl e ↦ rw e (cut [] row rows refl refl e)
  | inr e ↦ rw e (IsFirst-skip (is_eligible engine) row rows e (first_eligible-IsFirst engine rows))
]

-- Whether an element passes the test, with the place of one.
pub data IsAny {A : Type 0} (p : A → Bool) (xs : List A) : Bool → Type 0 where
  nowhere : none_of p xs ≡ true → IsAny p xs false
  somewhere :
      (before : List A) (x : A) (after : List A)
      → xs ≡ before ++ (x ∷ after)
      → p x ≡ true
      → IsAny p xs true

pub IsAny-skip :
    {A : Type 0} (p : A → Bool) (x : A) (xs : List A) {b : Bool}
    → p x ≡ false
    → IsAny p xs b
    → IsAny p (x ∷ xs) b
IsAny-skip p x xs e (nowhere h) = nowhere (rw e h)
IsAny-skip p x xs e (somewhere before y after q k) = somewhere (x ∷ before) y after (ap (◌∷◌ x) q) k

pub any_suspended-IsAny :
    (engine : Bytes) (rows : List CompiledPolicy)
    → IsAny (is_suspended engine) rows (any_suspended engine rows)
unfolding any_suspended
any_suspended-IsAny engine [] = nowhere refl
any_suspended-IsAny engine (row ∷ rows) = elim (Bool-cases (is_suspended engine row)) [
  | inl e ↦ rw e (somewhere [] row rows refl e)
  | inr e ↦ rw e (IsAny-skip (is_suspended engine) row rows e (any_suspended-IsAny engine rows))
]

-- The results that the policy of Trino and Spark allows: a suspended row of the engine, wherever it
-- stands, closes the table; else the first eligible row is enforced; else the table is closed.
pub data Verdict (engine query : Bytes) (rows : List CompiledPolicy)
    : Result InjectError Bytes → Type 0 where
  closed_by_suspension :
      (before : List CompiledPolicy) (row : CompiledPolicy) (after : List CompiledPolicy)
      → rows ≡ before ++ (row ∷ after)
      → is_suspended engine row ≡ true
      → Verdict engine query rows (err policy_engine_unavailable)
  closed_by_default :
      none_of (is_eligible engine) rows ≡ true
      → Verdict engine query rows (err policy_engine_unavailable)
  enforced :
      none_of (is_suspended engine) rows ≡ true
      → (before : List CompiledPolicy) (row : CompiledPolicy) (after : List CompiledPolicy)
      → rows ≡ before ++ (row ∷ after)
      → none_of (is_eligible engine) before ≡ true
      → is_eligible engine row ≡ true
      → Verdict engine query rows (spliced query (entry_of row))
