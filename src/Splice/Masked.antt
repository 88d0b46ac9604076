-- ===== src/Splice/Masked.antt =====
-- Which slots of a projection a column mask of internal/sqlproxy/dialect/splice.go replaces.
use neksur.Prelude.{
  ℕ, suc, ◌+◌, ◌≡◌, refl, ap, ◌∙◌, Bool, true, false, ◌&&◌, Option, none, some, List, [], ◌∷◌, ◌++◌,
  arith, if◌then◌else◌, Bytes, codes, same, set, length, Result, ok, err, Bool-cases, inl, inr,
}
use neksur.Splice.Trim.{trim_space}
use neksur.Splice.Scan.{SpliceError, splice_mismatch}
use neksur.Splice.Mask.{MaskProj, is_simple_ident, idx_by_col, apply_loop, apply_masks}

-- A slot that holds the bare column `name`.
abbrev pub is_slot : Bytes → Bytes → Bool
is_slot name col = is_simple_ident (trim_space col) && same (trim_space col) name

-- No slot of the list holds the column.
abbrev pub absent : Bytes → List Bytes → Bool
absent name [] = true
absent name (col ∷ cols) = if is_slot name col then false else absent name cols

abbrev pub mask_text : MaskProj → Bytes
mask_text m = m.expr ++ (codes " AS " ++ m.col)

idx_by_col_step :
    (i : ℕ) (col : Bytes) (cols : List Bytes) (name : Bytes)
    → idx_by_col i (col ∷ cols) name ≡ elim (idx_by_col (suc i) cols name) [
      | some j ↦ some j
      | none ↦ if is_slot name col then some i else none
    ]
unfolding idx_by_col
idx_by_col_step i col cols name = refl

apply_loop_step :
    (cols : List Bytes) (m : MaskProj) (masks : List MaskProj) (rewritten : List Bytes)
    → apply_loop cols (m ∷ masks) rewritten ≡ elim (idx_by_col 0 cols m.col) [
      | none ↦ err splice_mismatch
      | some i ↦ apply_loop cols masks (set rewritten i (mask_text m))
    ]
unfolding apply_loop
apply_loop_step cols m masks rewritten = refl

idx_by_col-absent :
    (i : ℕ) (cols : List Bytes) (name : Bytes)
    → absent name cols ≡ true
    → idx_by_col i cols name ≡ none
idx_by_col-absent i [] name h = unfold idx_by_col in refl
idx_by_col-absent i (col ∷ cols) name h = elim (Bool-cases (is_slot name col)) [
  | inl e ↦ cc (rw e at h)
  | inr e ↦ rw (idx_by_col_step i col cols name, idx_by_col-absent (suc i) cols name (rw e at h), e)
]

idx_by_col_last :
    (i : ℕ) (pre : List Bytes) (col : Bytes) (post : List Bytes) (name : Bytes)
    → is_slot name col ≡ true
    → absent name post ≡ true
    → idx_by_col i (pre ++ col ∷ post) name ≡ some (i + length pre)
idx_by_col_last i [] col post name h k =
    rw (idx_by_col_step i col post name, idx_by_col-absent (suc i) post name k, h)
      (ap some (omega arith))
idx_by_col_last i (p ∷ pre) col post name h k =
    rw (idx_by_col_step i p (pre ++ col ∷ post) name, idx_by_col_last (suc i) pre col post name h k)
      (ap some (omega arith))

set-append :
    (pre : List Bytes) (col v : Bytes) (post : List Bytes)
    → set (pre ++ col ∷ post) (length pre) v ≡ pre ++ v ∷ post
set-append [] col v post = refl
set-append (p ∷ pre) col v post = ap (◌∷◌ p) (set-append pre col v post)

-- One mask replaces exactly the last slot that holds its column, whatever stands before it: an
-- earlier slot of the same column is left as the query has it.
pub apply_masks_last_slot :
    (pre : List Bytes) (col : Bytes) (post : List Bytes) (m : MaskProj)
    → is_slot m.col col ≡ true
    → absent m.col post ≡ true
    → apply_masks (pre ++ col ∷ post) (m ∷ []) ≡ ok (pre ++ mask_text m ∷ post)
unfolding apply_masks
apply_masks_last_slot pre col post m h k =
    let e : idx_by_col 0 (pre ++ col ∷ post) m.col ≡ some (length pre) =
      idx_by_col_last 0 pre col post m.col h k ∙ ap some (omega arith) in
    rw (
      apply_loop_step (pre ++ col ∷ post) m [] (pre ++ col ∷ post),
      e,
      set-append pre col (mask_text m) post,
    )

either_fails :
    (o : Option ℕ) (k : ℕ → Result SpliceError (List Bytes))
    → ((i : ℕ) → k i ≡ err splice_mismatch)
    → elim o [ none ↦ err splice_mismatch | some i ↦ k i ] ≡ err splice_mismatch
either_fails none k h = refl
either_fails (some i) k h = h i

apply_loop-absent :
    (cols : List Bytes) (before : List MaskProj) (m : MaskProj) (after : List MaskProj)
    (rewritten : List Bytes)
    → absent m.col cols ≡ true
    → apply_loop cols (before ++ m ∷ after) rewritten ≡ err splice_mismatch
apply_loop-absent cols [] m after rewritten h =
    rw (apply_loop_step cols m after rewritten, idx_by_col-absent 0 cols m.col h)
apply_loop-absent cols (b ∷ before) m after rewritten h =
    apply_loop_step cols b (before ++ m ∷ after) rewritten
    ∙ either_fails (idx_by_col 0 cols b.col)
        (λ i. apply_loop cols (before ++ m ∷ after) (set rewritten i (mask_text b)))
        (λ i. apply_loop-absent cols before m after (set rewritten i (mask_text b)) h)

-- A mask of a column that no slot holds fails the whole rewrite, whatever masks stand beside it.
pub apply_masks-absent :
    (cols : List Bytes) (before : List MaskProj) (m : MaskProj) (after : List MaskProj)
    → absent m.col cols ≡ true
    → apply_masks cols (before ++ m ∷ after) ≡ err splice_mismatch
unfolding apply_masks
apply_masks-absent cols before m after h = apply_loop-absent cols before m after cols h
