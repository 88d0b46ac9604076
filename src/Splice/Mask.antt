-- ===== src/Splice/Mask.antt =====
-- Column masks in internal/sqlproxy/dialect/splice.go.
use neksur.Prelude.{
  ℕ, suc, Bool, false, not, ◌&&◌, ◌||◌, Option, none, some, List, [], ◌∷◌, ◌++◌, if◌then◌else◌,
  Bytes, codes, is_empty, same, set, all, drop, Result, ok, err, ◌>>=◌,
}
use neksur.Fragment.Lexer.{is_ident_start, is_word_char}
use neksur.Splice.Trim.{trim_space}
use neksur.Splice.Scan.{
  SpliceError, injection_failed, splice_mismatch, find_keyword_at_depth0, split_top_level_commas,
}

pub record MaskProj : Type 0 where
  pub col : Bytes
  pub expr : Bytes

unfoldable pub is_simple_ident : Bytes → Bool
is_simple_ident [] = false
is_simple_ident (c ∷ s) = is_ident_start c && all is_word_char s

-- One segment of the artifact body, trimmed and not empty: `col AS expr`.
unfoldable pub parse_mask_segment : Bytes → Result SpliceError MaskProj
unfolding find_keyword_at_depth0 trim_space is_simple_ident
parse_mask_segment seg = elim (find_keyword_at_depth0 seg (codes "AS")) [
  | none ↦ err injection_failed
  | some (before, from) ↦
      let col = trim_space before in
      let expr = trim_space (drop 2 from) in
      if is_empty col || is_empty expr
      then err injection_failed
      else if not (is_simple_ident col)
      then err injection_failed
      else ok (record { col = col; expr = expr })
]

-- The loop over the segments; an empty one is passed over.
unfoldable pub parse_segments : List Bytes → Result SpliceError (List MaskProj)
unfolding parse_mask_segment trim_space
parse_segments [] = ok []
parse_segments (part ∷ parts) =
    let seg = trim_space part in
    let rest = parse_segments parts in
    if is_empty seg then rest else (parse_mask_segment seg >>= λ m. rest >>= λ ms. ok (m ∷ ms))

unfoldable pub parse_mask_projections : Bytes → Result SpliceError (List MaskProj)
unfolding split_top_level_commas parse_segments
parse_mask_projections body = do
  parts ← split_top_level_commas body
  out ← parse_segments parts
  if is_empty out then err injection_failed else ok out

unfoldable pub trim_elements : List Bytes → Result SpliceError (List Bytes)
unfolding trim_space
trim_elements [] = ok []
trim_elements (part ∷ parts) =
    let t = trim_space part in
    if is_empty t then err injection_failed else (trim_elements parts >>= λ out. ok (t ∷ out))

unfoldable pub parse_projection_list : Bytes → Result SpliceError (List Bytes)
unfolding split_top_level_commas trim_elements
parse_projection_list projection = do parts ← split_top_level_commas projection; trim_elements parts

-- `idxByCol[name]`, filled from position `i` on: a later slot of the same name takes the place of an
-- earlier one.
unfoldable pub idx_by_col : ℕ → List Bytes → Bytes → Option ℕ
unfolding trim_space is_simple_ident
idx_by_col i [] name = none
idx_by_col i (col ∷ cols) name = elim (idx_by_col (suc i) cols name) [
  | some j ↦ some j
  | none ↦ if is_simple_ident (trim_space col) && same (trim_space col) name then some i else none
]

-- The loop over the masks; `rewritten` starts as the projection.
unfoldable pub apply_loop :
    List Bytes → List MaskProj → List Bytes → Result SpliceError (List Bytes)
unfolding idx_by_col
apply_loop proj_cols [] rewritten = ok rewritten
apply_loop proj_cols (m ∷ masks) rewritten = elim (idx_by_col 0 proj_cols m.col) [
  | none ↦ err splice_mismatch
  | some i ↦ apply_loop proj_cols masks (set rewritten i (m.expr ++ (codes " AS " ++ m.col)))
]

unfoldable pub apply_masks : List Bytes → List MaskProj → Result SpliceError (List Bytes)
unfolding apply_loop
apply_masks proj_cols masks = apply_loop proj_cols masks proj_cols
