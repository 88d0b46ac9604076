-- ===== src/Compile/Kindless.antt =====
-- A row that internal/policy/compiler/compiler.go writes, met by internal/sqlproxy/dialect/trino.go.
use neksur.Prelude.{
  ◌≡◌, refl, ap, ◌∙◌, true, false, none, some, [], ◌∷◌, Bytes, same, codes, Result, ok, err,
  Bool-cases, Result-cases, inl, inr,
}
use neksur.Splice.Scan.{SpliceError}
use neksur.Splice.Rewrite.{pin_dialect_trino, splice_row_filter, splice_artifact}
use neksur.Inject.Model.{
  CompiledPolicy, TableRef, Deps, InjectError, splice_failed, ArtifactEntry, spliced, entry_of,
  status_active, key_for,
}
use neksur.Inject.Rows.{is_suspended, is_eligible, any_suspended, first_eligible, pinned_query}
use neksur.Inject.Fresh.{outcome, trino_miss_result}
use neksur.Inject.Trino
use neksur.Compile.Artifact.{PolicySource, Engine, CompiledArtifact}
use neksur.Compile.One.{policy_row}

abbrev pub as_inject : Result SpliceError Bytes → Result InjectError Bytes
as_inject (ok text) = ok text
as_inject (err f) = err (splice_failed f)

spliced_lem :
    (query : Bytes) (x : ArtifactEntry)
    → spliced query x ≡ as_inject (splice_artifact query x.body x.kind)
unfolding spliced
spliced_lem query x = elim (Result-cases (splice_artifact query x.body x.kind)) [
  | inl (text, h) ↦ rw (spliced, h) refl
  | inr (f, h) ↦ rw (spliced, h) refl
]

no_kind : (query body : Bytes) → splice_artifact query body [] ≡ splice_row_filter query body
unfolding splice_artifact
no_kind query body = refl

module _ (p : PolicySource) (ref : TableRef) (e : Engine) (art : CompiledArtifact)
    (checksum : Bytes) where
  abbrev row : CompiledPolicy
  row = policy_row p ref e art status_active checksum

  row_not_suspended : any_suspended (codes "trino") (row ∷ []) ≡ false
  unfolding any_suspended is_suspended policy_row
  row_not_suspended = elim (Bool-cases (same e.engine_kind (codes "trino"))) [
    | inl h ↦ simp (any_suspended, is_suspended, policy_row, h)
    | inr h ↦ simp (any_suspended, is_suspended, policy_row, h)
  ]

  row_eligible :
      same e.engine_kind (codes "trino") ≡ true
      → first_eligible (codes "trino") (row ∷ []) ≡ some row
  unfolding first_eligible is_eligible policy_row
  row_eligible h = simp (first_eligible, is_eligible, policy_row, h)

  row_entry : entry_of row ≡ record { body = art.body; kind = [] }
  unfolding policy_row
  row_entry = refl

  spliced-row :
      (query : Bytes) → spliced query (entry_of row) ≡ as_inject (splice_row_filter query art.body)
  spliced-row query =
      ap (spliced query) row_entry
      ∙ spliced_lem query (record { body = art.body; kind = [] })
      ∙ ap as_inject (no_kind query art.body)

  -- If the one row of a table is an active row that the compiler wrote for Trino, then a request
  -- which the cache misses is answered, behind its pin, by splicing the row's body into the WHERE
  -- clause as a row filter, whatever kind of artifact was compiled, a column mask included.
  pub compiled_row_filters :
      {Cache : Type 0} (deps : Deps Cache) (tid query : Bytes) (table : TableRef) (cache : Cache)
      {pinned : Bytes}
      → same e.engine_kind (codes "trino") ≡ true
      → pinned_query deps pin_dialect_trino table query ≡ ok pinned
      → (deps.get (key_for (codes "trino") tid table) cache).0 ≡ none
      → deps.load table ≡ some (policy_row p ref e art status_active checksum ∷ [])
      → (Trino.inject_policy deps (some tid) query table cache).result
        ≡ as_inject (splice_row_filter pinned art.body)
  compiled_row_filters deps tid query table cache {pinned} he hp hg hl =
      trino_miss_result deps tid query table cache hp hg hl
      ∙ ap (λ b. outcome pinned b (first_eligible (codes "trino") (row ∷ []))) row_not_suspended
      ∙ ap (outcome pinned false) (row_eligible he)
      ∙ spliced-row pinned
