-- ===== src/Inject/Order.antt =====
-- The one loop of internal/sqlproxy/dialect/dremio.go, which stops at the first row that decides.
use neksur.Prelude.{
  ◌≡◌, refl, ap, ◌⊎◌, Bool, true, false, ◌&&◌, none, some, List, [], ◌∷◌, ◌++◌, Bytes, codes,
  Result, ok, err, Bool-cases, inl, inr,
}
use neksur.Splice.Rewrite.{pin_dialect_dremio}
use neksur.Inject.Model.{
  CompiledPolicy, TableRef, CacheKey, Deps, Response, InjectError, policy_engine_unavailable,
  status_miss, status_error, failed, respond, entry_of, spliced, key_for,
}
use neksur.Inject.Rows.{is_suspended, is_eligible, pinned_query}
use neksur.Inject.Verdict.{none_of}
use neksur.Inject.Fresh.{result-respond}
use neksur.Inject.Dremio.{
  Choice, suspended, nothing, chosen, choose, serve_rows, look_up, inject_policy,
}

abbrev pub engine : Bytes
engine = codes "dremio"

-- No row of the list decides the loop.
abbrev pub undecided : List CompiledPolicy → Bool
undecided rows = none_of (is_suspended engine) rows && none_of (is_eligible engine) rows

pub data Decides (rows : List CompiledPolicy) : Choice → Type 0 where
  by_no_row : undecided rows ≡ true → Decides rows nothing
  by_suspended :
      (before : List CompiledPolicy) (row : CompiledPolicy) (after : List CompiledPolicy)
      → rows ≡ before ++ (row ∷ after)
      → undecided before ≡ true
      → is_suspended engine row ≡ true
      → Decides rows suspended
  by_eligible :
      (before : List CompiledPolicy) (row : CompiledPolicy) (after : List CompiledPolicy)
      → rows ≡ before ++ (row ∷ after)
      → undecided before ≡ true
      → is_eligible engine row ≡ true
      → Decides rows (chosen row)

undecided_cons :
    (row : CompiledPolicy) (rows : List CompiledPolicy)
    → is_suspended engine row ≡ false
    → is_eligible engine row ≡ false
    → undecided (row ∷ rows) ≡ undecided rows
undecided_cons row rows s e = rw (s, e) refl

Decides-skip :
    (row : CompiledPolicy) (rows : List CompiledPolicy) {o : Choice}
    → is_suspended engine row ≡ false
    → is_eligible engine row ≡ false
    → Decides rows o
    → Decides (row ∷ rows) o
Decides-skip row rows s e (by_no_row h) = by_no_row (rw (undecided_cons row rows s e) h)
Decides-skip row rows s e (by_suspended before r after q h k) =
    by_suspended (row ∷ before) r after (ap (◌∷◌ row) q) (rw (undecided_cons row before s e) h) k
Decides-skip row rows s e (by_eligible before r after q h k) =
    by_eligible (row ∷ before) r after (ap (◌∷◌ row) q) (rw (undecided_cons row before s e) h) k

pub choose-Decides : (rows : List CompiledPolicy) → Decides rows (choose rows)
unfolding choose
choose-Decides [] = by_no_row refl
choose-Decides (row ∷ rows) = elim (Bool-cases (is_suspended engine row)) [
  | inl s ↦ rw s (by_suspended [] row rows refl refl s)
  | inr s ↦ elim (Bool-cases (is_eligible engine row)) [
    | inl e ↦ rw (s, e) (by_eligible [] row rows refl refl e)
    | inr e ↦ rw (s, e) (Decides-skip row rows s e (choose-Decides rows))
  ]
]

choose-append :
    (rows more : List CompiledPolicy) {row : CompiledPolicy}
    → choose rows ≡ chosen row
    → choose (rows ++ more) ≡ chosen row
unfolding choose
choose-append [] more h = cc
choose-append (r ∷ rows) more h = elim (Bool-cases (is_suspended engine r)) [
  | inl s ↦ cc (rw s at h)
  | inr s ↦ elim (Bool-cases (is_eligible engine r)) [
    | inl e ↦ rw (s, e) (rw (s, e) at h)
    | inr e ↦ rw (s, e) (choose-append rows more (rw (s, e) at h))
  ]
]

abbrev outcome : Bytes → Choice → Result InjectError Bytes
outcome query suspended = err policy_engine_unavailable
outcome query nothing = err policy_engine_unavailable
outcome query (chosen row) = spliced query (entry_of row)

-- The results that one loop in the order of the rows allows.
pub data OrderedVerdict (query : Bytes) (rows : List CompiledPolicy)
    : Result InjectError Bytes → Type 0 where
  closed_by_default :
      undecided rows ≡ true → OrderedVerdict query rows (err policy_engine_unavailable)
  closed_by_suspension :
      (before : List CompiledPolicy) (row : CompiledPolicy) (after : List CompiledPolicy)
      → rows ≡ before ++ (row ∷ after)
      → undecided before ≡ true
      → is_suspended engine row ≡ true
      → OrderedVerdict query rows (err policy_engine_unavailable)
  enforced :
      (before : List CompiledPolicy) (row : CompiledPolicy) (after : List CompiledPolicy)
      → rows ≡ before ++ (row ∷ after)
      → undecided before ≡ true
      → is_eligible engine row ≡ true
      → OrderedVerdict query rows (spliced query (entry_of row))

outcome-OrderedVerdict :
    {query : Bytes} {rows : List CompiledPolicy} {o : Choice}
    → Decides rows o
    → OrderedVerdict query rows (outcome query o)
outcome-OrderedVerdict (by_no_row h) = closed_by_default h
outcome-OrderedVerdict (by_suspended before row after q h k) =
    closed_by_suspension before row after q h k
outcome-OrderedVerdict (by_eligible before row after q h k) = enforced before row after q h k

-- What `serve_rows` does with the choice.
abbrev serve_choice :
    {Cache : Type 0} → Deps Cache → CacheKey → Bytes → Cache → Choice → Response Cache
serve_choice deps key query c suspended = failed status_error policy_engine_unavailable c
serve_choice deps key query c nothing = failed status_miss policy_engine_unavailable c
serve_choice deps key query c (chosen row) =
    respond status_miss query (entry_of row) (deps.add key (entry_of row) c)

result-serve_choice :
    {Cache : Type 0} (deps : Deps Cache) (key : CacheKey) (query : Bytes) (c : Cache) (o : Choice)
    → (serve_choice deps key query c o).result ≡ outcome query o
result-serve_choice deps key query c suspended = refl
result-serve_choice deps key query c nothing = refl
result-serve_choice deps key query c (chosen row) =
    result-respond status_miss query (entry_of row) (deps.add key (entry_of row) c)

Choice-cases :
    (o : Choice) → (o ≡ suspended) ⊎ ((o ≡ nothing) ⊎ ((row : CompiledPolicy) × (o ≡ chosen row)))
Choice-cases suspended = inl refl
Choice-cases nothing = inr (inl refl)
Choice-cases (chosen row) = inr (inr (row, refl))

serve_rows_lem :
    {Cache : Type 0} (deps : Deps Cache) (key : CacheKey) (query : Bytes)
    (rows : List CompiledPolicy) (c : Cache)
    → serve_rows deps key query rows c ≡ serve_choice deps key query c (choose rows)
unfolding serve_rows
serve_rows_lem deps key query rows c = elim (Choice-cases (choose rows)) [
  | inl e ↦ rw (serve_rows, e) refl
  | inr (inl e) ↦ rw (serve_rows, e) refl
  | inr (inr (row, e)) ↦ rw (serve_rows, e) refl
]

module _ {Cache : Type 0} (deps : Deps Cache) (tid query : Bytes) (table : TableRef)
    (cache : Cache) where
  dremio_miss :
      {pinned : Bytes} {rows : List CompiledPolicy}
      → pinned_query deps pin_dialect_dremio table query ≡ ok pinned
      → (deps.get (key_for engine tid table) cache).0 ≡ none
      → deps.load table ≡ some rows
      → (inject_policy deps (some tid) query table cache).result ≡ outcome pinned (choose rows)
  unfolding inject_policy
  dremio_miss {pinned} {rows} hp hg hl =
      rw
        (
          inject_policy,
          hp,
          look_up,
          hg,
          hl,
          serve_rows_lem deps (key_for engine tid table) pinned rows
              (deps.get (key_for engine tid table) cache).1,
        )
        (result-serve_choice deps (key_for engine tid table) pinned
          (deps.get (key_for engine tid table) cache).1 (choose rows))

  -- A request to Dremio that the cache misses and whose rows are loaded, behind its pin, is decided by
  -- the first row of Dremio that is suspended, or active and no predicate: the first closes the table,
  -- the second is spliced in. Without such a row the answer is that the policy engine is unavailable.
  pub dremio_miss-OrderedVerdict :
      {pinned : Bytes} {rows : List CompiledPolicy}
      → pinned_query deps pin_dialect_dremio table query ≡ ok pinned
      → (deps.get (key_for (codes "dremio") tid table) cache).0 ≡ none
      → deps.load table ≡ some rows
      → OrderedVerdict pinned rows (inject_policy deps (some tid) query table cache).result
  dremio_miss-OrderedVerdict {pinned} {rows} hp hg hl =
      rw (dremio_miss hp hg hl) (outcome-OrderedVerdict (choose-Decides rows))

  -- Rows that the store lists behind the one which Dremio enforces change nothing, be they suspended:
  -- with or without them, the answer is the splice of that row.
  pub dremio_later_rows :
      {pinned : Bytes} (rows more : List CompiledPolicy) {row : CompiledPolicy}
      → pinned_query deps pin_dialect_dremio table query ≡ ok pinned
      → (deps.get (key_for (codes "dremio") tid table) cache).0 ≡ none
      → deps.load table ≡ some (rows ++ more)
      → choose rows ≡ chosen row
      → (inject_policy deps (some tid) query table cache).result ≡ spliced pinned (entry_of row)
  dremio_later_rows rows more hp hg hl hc =
      rw (dremio_miss hp hg hl, choose-append rows more hc) refl
