-- ===== src/Splice/Scan.antt =====
-- The scanners of internal/sqlproxy/dialect/splice.go. A loop over `src[i]` is a recursion on what is
-- left; where it stops, the bytes before and the bytes from there on are returned for the offset.
use neksur.Prelude.{
  ℕ, ◌+◌, ◌-◌, Bool, true, false, not, ◌&&◌, ◌||◌, Option, none, some, List, [], ◌∷◌, ◌==◌,
  if◌then◌else◌, Bytes, codes, strip_fold, Result, ok, err, ◌>>=◌,
}
use neksur.Fragment.Lexer.{is_word_char, starts_word}

-- The sentinels of internal/sqlproxy/errors.go that the splicer wraps.
pub data SpliceError : Type 0 where
  injection_failed unsupported_query_shape splice_mismatch : SpliceError

-- `depth` and `inStr`; `escaped` stands before the second byte of a doubled quote, which the loops
-- step over.
pub record Mode : Type 0 where
  pub depth : ℕ
  pub in_str : Bool
  pub escaped : Bool

abbrev pub outside : Mode
outside = record { depth = 0; in_str = false; escaped = false }

abbrev pub starts_quote : Bytes → Bool
starts_quote [] = false
starts_quote (c ∷ _) = c == b'\''

-- The switch of every loop, at byte `c` before `s`. A closing parenthesis at depth 0 is an error,
-- unless the loop is lenient and passes over it.
unfoldable pub step : Bool → ℕ → Bytes → Mode → Option Mode
step lenient c s m =
    if m.escaped
    then some (record m { escaped = false })
    else if m.in_str
    then (if c == b'\''
        then (if starts_quote s
            then some (record m { escaped = true })
            else some (record m { in_str = false }))
        else some m)
    else if c == b'\''
    then some (record m { in_str = true })
    else if c == b'('
    then some (record m { depth = m.depth + 1 })
    else if c == b')'
    then (if m.depth == 0
        then (if lenient then some m else none)
        else some (record m { depth = m.depth - 1 }))
    else some m

-- `kw` stands here, up to case, and no word character follows it.
unfoldable pub keyword_at : Bytes → Bytes → Bool
unfolding strip_fold
keyword_at kw s = elim (strip_fold kw s) [ none ↦ false | some rest ↦ not (starts_word rest) ]

unfoldable pub any_keyword_at : List Bytes → Bytes → Bool
unfolding keyword_at
any_keyword_at [] s = false
any_keyword_at (kw ∷ kws) s = keyword_at kw s || any_keyword_at kws s

pub data Scanned : Type 0 where
  -- the bytes before a match, and those from it on
  found : Bytes → Bytes → Scanned
  -- no match: all bytes, and the mode at the end
  ended : Bytes → Mode → Scanned
  unbalanced : Scanned

abbrev pub push : ℕ → Scanned → Scanned
push c (found before from) = found (c ∷ before) from
push c (ended before m) = ended (c ∷ before) m
push c unbalanced = unbalanced

-- The loop for the first keyword at depth 0, outside strings, that no word character precedes.
-- `after_word` says that the byte before is one.
unfoldable pub scan : Bool → List Bytes → Bool → Mode → Bytes → Scanned
unfolding step any_keyword_at
scan lenient kws after_word m [] = ended [] m
scan lenient kws after_word m (c ∷ s) = elim (step lenient c s m) [
  | none ↦ unbalanced
  | some m' ↦
      let rest = push c (scan lenient kws (is_word_char c) m' s) in
      if not m'.in_str && m'.depth == 0 && not after_word && any_keyword_at kws (c ∷ s)
      then found [] (c ∷ s)
      else rest
]

-- `scanToKeyword`, always called with requireWordBoundary; every failure is ErrInjectionFailed.
unfoldable pub scan_to_keyword : Bytes → Bytes → Result SpliceError (Bytes × Bytes)
unfolding scan
scan_to_keyword kw s = elim (scan false (kw ∷ []) false outside s) [
  | found before from ↦ ok (before, from)
  | ended _ _ ↦ err injection_failed
  | unbalanced ↦ err injection_failed
]

abbrev pub tail_keywords : List Bytes
tail_keywords = codes "GROUP" ∷ codes "HAVING" ∷ codes "ORDER" ∷ codes "LIMIT" ∷ []

-- `scanToTailKeyword`: the end of the input if there is no keyword. It is called behind a word.
unfoldable pub scan_to_tail_keyword : Bytes → Bytes × Bytes
unfolding scan
scan_to_tail_keyword s = elim (scan true tail_keywords true outside s) [
  | found before from ↦ (before, from)
  | ended before _ ↦ (before, [])
  | unbalanced ↦ (s, [])
]

-- `findKeywordAtDepth0`, `findKeyword`
unfoldable pub find_keyword_at_depth0 : Bytes → Bytes → Option (Bytes × Bytes)
unfolding scan
find_keyword_at_depth0 s kw = elim (scan true (kw ∷ []) false outside s) [
  | found before from ↦ some (before, from)
  | ended _ _ ↦ none
  | unbalanced ↦ none
]

abbrev push_head : ℕ → List Bytes → List Bytes
push_head c [] = (c ∷ []) ∷ []
push_head c (w ∷ ws) = (c ∷ w) ∷ ws

-- The loop of `splitTopLevelCommas`.
unfoldable pub split_commas : Mode → Bytes → Result SpliceError (List Bytes)
unfolding step
split_commas m [] = if m.in_str || not (m.depth == 0) then err injection_failed else ok ([] ∷ [])
split_commas m (c ∷ s) = elim (step false c s m) [
  | none ↦ err injection_failed
  | some m' ↦
      let rest = split_commas m' s in
      if not m.in_str && c == b',' && m.depth == 0
      then (rest >>= λ parts. ok ([] ∷ parts))
      else (rest >>= λ parts. ok (push_head c parts))
]

unfoldable pub split_top_level_commas : Bytes → Result SpliceError (List Bytes)
unfolding split_commas
split_top_level_commas s = split_commas outside s
