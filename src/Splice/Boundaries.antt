-- ===== src/Splice/Boundaries.antt =====
-- Where internal/sqlproxy/dialect/splice.go cuts a query.
use neksur.Prelude.{
  ℕ, ◌≡◌, refl, ap, ◌⊎◌, inl, inr, Bool, true, false, not, ◌&&◌, ◌||◌, Option, none, some, List, [],
  ◌∷◌, ◌++◌, ◌==◌, ==_iff, arith, ◌≤◌, if◌then◌else◌, Bytes, codes, to_upper, Bool-cases,
}
use neksur.Fragment.Lexer.{is_word_char}
use neksur.Splice.Scan.{
  Mode, outside, step, keyword_at, any_keyword_at, Scanned, found, ended, unbalanced, push, scan,
  tail_keywords, scan_to_tail_keyword,
}
use neksur.Splice.Select.{skip_blank, peek_any_keyword, consume_keyword, set_keywords, parse_where}

-- A match cuts the input in two, and a keyword begins the second part; without one all is read.
abbrev CutAt : List Bytes → Bytes → Scanned → Type 0
CutAt kws s (found before from) = (before ++ from ≡ s) × (any_keyword_at kws from ≡ true)
CutAt kws s (ended before m) = before ≡ s
CutAt kws s unbalanced = Unit

push-CutAt :
    (kws : List Bytes) (c : ℕ) (s : Bytes) (r : Scanned)
    → CutAt kws s r
    → CutAt kws (c ∷ s) (push c r)
push-CutAt kws c s (found before from) h = (ap (◌∷◌ c) h.0, h.1)
push-CutAt kws c s (ended before m) h = ap (◌∷◌ c) h
push-CutAt kws c s unbalanced h = tt

at_step :
    (kws : List Bytes) (after_word : Bool) (c : ℕ) (s : Bytes) (o : Option Mode)
    (rest : Mode → Scanned)
    → ((m : Mode) → CutAt kws s (rest m))
    → CutAt kws (c ∷ s) (elim o [
      | none ↦ unbalanced
      | some m' ↦
          if not m'.in_str && m'.depth == 0 && not after_word && any_keyword_at kws (c ∷ s)
          then found [] (c ∷ s)
          else push c (rest m')
    ])
at_step kws after_word c s none rest h = tt
at_step kws after_word c s (some m') rest h =
    elim (Bool-cases
      (not m'.in_str && m'.depth == 0 && not after_word && any_keyword_at kws (c ∷ s))) [
        | inl e ↦ rw e (refl, ground arith)
        | inr e ↦ rw e (push-CutAt kws c s (rest m') (h m'))
      ]

-- The bytes before a match and those after it make the input, and a keyword stands at the match.
scan-CutAt :
    (lenient : Bool) (kws : List Bytes) (after_word : Bool) (m : Mode) (s : Bytes)
    → CutAt kws s (scan lenient kws after_word m s)
unfolding scan
scan-CutAt lenient kws after_word m [] = refl
scan-CutAt lenient kws after_word m (c ∷ s) =
    at_step kws after_word c s (step lenient c s m) (λ m'. scan lenient kws (is_word_char c) m' s)
      (λ m'. scan-CutAt lenient kws (is_word_char c) m' s)

-- Keywords that begin with different letters do not stand at one place.
pub other_first :
    (k : ℕ) (kw : Bytes) (c : ℕ) (s : Bytes)
    → (to_upper k == to_upper c) ≡ false
    → keyword_at (k ∷ kw) (c ∷ s) ≡ false
unfolding keyword_at
other_first k kw c s h = rw (keyword_at, h)

abbrev TailFirst : ℕ → Type 0
TailFirst u = (b'G' ≡ u) ⊎ ((b'H' ≡ u) ⊎ ((b'O' ≡ u) ⊎ (b'L' ≡ u)))

one_of_four :
    (a b c d s : Bytes)
    → any_keyword_at (a ∷ b ∷ c ∷ d ∷ []) s
      ≡ (keyword_at a s || (keyword_at b s || (keyword_at c s || (keyword_at d s || false))))
unfolding any_keyword_at
one_of_four a b c d s = refl

tail_first :
    (c : ℕ) (s : Bytes) → any_keyword_at tail_keywords (c ∷ s) ≡ true → TailFirst (to_upper c)
tail_first c s h = elim (Bool-cases (b'G' == to_upper c)) [
  | inl e ↦ inl ((==_iff b'G' (to_upper c)).0 e)
  | inr g ↦ elim (Bool-cases (b'H' == to_upper c)) [
    | inl e ↦ inr (inl ((==_iff b'H' (to_upper c)).0 e))
    | inr hh ↦ elim (Bool-cases (b'O' == to_upper c)) [
      | inl e ↦ inr (inr (inl ((==_iff b'O' (to_upper c)).0 e)))
      | inr o ↦ elim (Bool-cases (b'L' == to_upper c)) [
        | inl e ↦ inr (inr (inr ((==_iff b'L' (to_upper c)).0 e)))
        | inr l ↦ cc (
            rw
              (
                one_of_four (codes "GROUP") (codes "HAVING") (codes "ORDER") (codes "LIMIT")
                    (c ∷ s),
                other_first b'G' (codes "ROUP") c s g,
                other_first b'H' (codes "AVING") c s hh,
                other_first b'O' (codes "RDER") c s o,
                other_first b'L' (codes "IMIT") c s l,
              )
              at h)
      ]
    ]
  ]
]

three_peeked :
    (a b c s : Bytes)
    → peek_any_keyword (a ∷ b ∷ c ∷ []) s ≡ (
        keyword_at a (skip_blank s)
        || (keyword_at b (skip_blank s) || (keyword_at c (skip_blank s) || false)))
unfolding peek_any_keyword
three_peeked a b c s = refl

letter_stays : (u c : ℕ) (s : Bytes) → u ≡ to_upper c → 65 ≤ u → skip_blank (c ∷ s) ≡ c ∷ s
unfolding skip_blank
letter_stays u c s e l = ground arith

no_set_keyword :
    (u c : ℕ) (s : Bytes)
    → u ≡ to_upper c
    → 65 ≤ u
    → (b'U' == u) ≡ false
    → (b'I' == u) ≡ false
    → (b'E' == u) ≡ false
    → peek_any_keyword set_keywords (c ∷ s) ≡ false
no_set_keyword u c s e l x y z = rw (
  three_peeked (codes "UNION") (codes "INTERSECT") (codes "EXCEPT") (c ∷ s),
  letter_stays u c s e l,
  other_first b'U' (codes "NION") c s (rw e at x),
  other_first b'I' (codes "NTERSECT") c s (rw e at y),
  other_first b'E' (codes "XCEPT") c s (rw e at z),
)

nothing_set : peek_any_keyword set_keywords [] ≡ false
unfolding peek_any_keyword
nothing_set = refl

no_set_at_tail :
    (from : Bytes)
    → any_keyword_at tail_keywords from ≡ true
    → peek_any_keyword set_keywords from ≡ false
no_set_at_tail [] h = nothing_set
no_set_at_tail (c ∷ s) h = elim (tail_first c s h) [
  | inl e ↦ no_set_keyword b'G' c s e (omega arith) refl refl refl
  | inr (inl e) ↦ no_set_keyword b'H' c s e (omega arith) refl refl refl
  | inr (inr (inl e)) ↦ no_set_keyword b'O' c s e (omega arith) refl refl refl
  | inr (inr (inr e)) ↦ no_set_keyword b'L' c s e (omega arith) refl refl refl
]

region_of : Bytes → Scanned → Bytes × Bytes
region_of s (found before from) = (before, from)
region_of s (ended before _) = (before, [])
region_of s unbalanced = (s, [])

no_set_in_region :
    (s : Bytes) (r : Scanned)
    → CutAt tail_keywords s r
    → peek_any_keyword set_keywords (region_of s r).1 ≡ false
unfolding region_of
no_set_in_region s (found before from) c = no_set_at_tail from c.1
no_set_in_region s (ended before m) c = nothing_set
no_set_in_region s unbalanced c = nothing_set

where_found :
    (s rest : Bytes)
    → consume_keyword (codes "WHERE") s ≡ some rest
    → parse_where s ≡ scan_to_tail_keyword rest
unfolding parse_where
where_found s rest h = rw (parse_where, h)

-- Behind a WHERE clause the test for UNION, INTERSECT and EXCEPT never succeeds: the scan for the end
-- of the WHERE body stops at GROUP, HAVING, ORDER or LIMIT only, and at the end of the query.
pub parse_where_no_set_operation :
    (s rest : Bytes)
    → consume_keyword (codes "WHERE") s ≡ some rest
    → peek_any_keyword set_keywords (parse_where s).1 ≡ false
unfolding region_of scan_to_tail_keyword
parse_where_no_set_operation s rest h = rw (where_found s rest h) (
    no_set_in_region rest (scan true tail_keywords true outside rest)
      (scan-CutAt true tail_keywords true outside rest))
