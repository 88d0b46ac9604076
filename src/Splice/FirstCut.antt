-- ===== src/Splice/FirstCut.antt =====
-- `scanToKeyword` of internal/sqlproxy/dialect/splice.go beside the search through all cuts.
use neksur.Prelude.{
  ℕ, ◌≡◌, refl, sym, ap, ◌∙◌, ◌⊎◌, inl, inr, Bool, true, false, not, ◌&&◌, ◌||◌, Option, none, some,
  [], ◌∷◌, ◌++◌, ◌==◌, arith, ◌≤◌, if◌then◌else◌, Bytes, to_upper, Result, ok, err, append_assoc,
  append-nil,
}
use neksur.Fragment.Lexer.{is_word_char}
use neksur.Splice.Scan.{
  Mode, outside, SpliceError, step, keyword_at, any_keyword_at, Scanned, found, ended, unbalanced,
  push, scan, scan_to_keyword,
}
use neksur.Splice.Boundaries.{other_first}
use neksur.Splice.Cuts.{
  Place, start, read_byte, place_after, ends_in_word, is_top, stands_on_top, first_cut,
  place_after-append, ends_in_word-append, no_cut,
}
use neksur.Splice.Steps.{Linked, plain, is_mark, Stepped, both_stop, both_go, step-Stepped}

-- A keyword that begins with a letter does not stand at a quote or a parenthesis.
mark_stays : (u c : ℕ) → 65 ≤ u → is_mark c ≡ true → (to_upper u == to_upper c) ≡ false
mark_stays u c l h = ground arith

not_at_mark :
    (u : ℕ) (kw : Bytes) (c : ℕ) (s : Bytes)
    → 65 ≤ u
    → is_mark c ≡ true
    → keyword_at (u ∷ kw) (c ∷ s) ≡ false
not_at_mark u kw c s l h = other_first u kw c s (mark_stays u c l h)

-- What the loop finds behind `before`, and the cut.
abbrev Agrees : Bytes → Scanned → Option (Bytes × Bytes) → Type 0
Agrees before (found gap from) o = o ≡ some (before ++ gap, from)
Agrees before (ended gap m) o = o ≡ none
Agrees before unbalanced o = o ≡ none

Agrees-push :
    (before : Bytes) (c : ℕ) (r : Scanned) (o : Option (Bytes × Bytes))
    → Agrees (before ++ c ∷ []) r o
    → Agrees before (push c r) o
Agrees-push before c (found gap from) o h =
    h ∙ ap (λ x. some (x, from)) (append_assoc before (c ∷ []) gap)
Agrees-push before c (ended gap m) o h = h
Agrees-push before c unbalanced o h = h

choose :
    (before : Bytes) (b : Bool) (c : ℕ) (s : Bytes) (rest : Scanned) (o : Option (Bytes × Bytes))
    → Agrees (before ++ c ∷ []) rest o
    → Agrees before
        (if b then found [] (c ∷ s) else push c rest)
        (if b then some (before, c ∷ s) else o)
choose before true c s rest o h = ap (λ x. some (x, c ∷ s)) (sym (append-nil before))
choose before false c s rest o h = Agrees-push before c rest o h

same_guard :
    (aw k : Bool) (n : Mode) (p : Place)
    → (k ≡ false) ⊎ ((n.in_str ≡ p.quoted) × (n.depth ≡ p.depth))
    → (not n.in_str && n.depth == 0 && not aw && k) ≡ (is_top (some p) && not aw && k)
same_guard aw k n p (inl e) = ground arith
same_guard aw k n p (inr (i, d)) = rw (i, d) refl

only_keyword : (kw s : Bytes) → (keyword_at kw s || false) ≡ keyword_at kw s
only_keyword kw s = ground arith

one_keyword : (kw s : Bytes) → any_keyword_at (kw ∷ []) s ≡ keyword_at kw s
unfolding any_keyword_at
one_keyword kw s = only_keyword kw s

-- How a loop that has not stopped goes on.
scan-round :
    (kw : Bytes) (aw : Bool) (c : ℕ) (s : Bytes) (m n : Mode)
    → step false c s m ≡ some n
    → scan false (kw ∷ []) aw m (c ∷ s) ≡ (
        if not n.in_str && n.depth == 0 && not aw && keyword_at kw (c ∷ s)
        then found [] (c ∷ s)
        else push c (scan false (kw ∷ []) (is_word_char c) n s))
unfolding scan
scan-round kw aw c s m n e = rw (scan, e, one_keyword kw (c ∷ s)) refl

scan-stop :
    (kw : Bytes) (aw : Bool) (c : ℕ) (s : Bytes) (m : Mode)
    → step false c s m ≡ none
    → scan false (kw ∷ []) aw m (c ∷ s) ≡ unbalanced
unfolding scan
scan-stop kw aw c s m e = rw (scan, e) refl

first_cut-round :
    (kw before : Bytes) (c : ℕ) (s : Bytes) (p : Place)
    → place_after before (some start) ≡ some p
    → first_cut (stands_on_top kw) before (c ∷ s) ≡ (
        if is_top (some p) && not (ends_in_word before) && keyword_at kw (c ∷ s)
        then some (before, c ∷ s)
        else first_cut (stands_on_top kw) (before ++ c ∷ []) s)
unfolding first_cut stands_on_top
first_cut-round kw before c s p h = rw (first_cut, stands_on_top, h) refl

first_cut-skips :
    (kw before : Bytes) (c : ℕ) (s : Bytes) (p : Place)
    → place_after before (some start) ≡ some p
    → keyword_at kw (c ∷ s) ≡ false
    → first_cut (stands_on_top kw) before (c ∷ s)
      ≡ first_cut (stands_on_top kw) (before ++ c ∷ []) s
first_cut-skips kw before c s p h k = first_cut-round kw before c s p h ∙ rw k (ground arith)

place_after-next :
    (before : Bytes) (c : ℕ) {p : Place}
    → place_after before (some start) ≡ some p
    → place_after (before ++ c ∷ []) (some start) ≡ read_byte c p
unfolding place_after
place_after-next before c h = rw (place_after-append before (c ∷ []) (some start), h) refl

abbrev pub ok_or_failed : Option (Bytes × Bytes) → Result SpliceError (Bytes × Bytes)
ok_or_failed none = err SpliceError.injection_failed
ok_or_failed (some cut) = ok cut

abbrev keyword_of : Scanned → Result SpliceError (Bytes × Bytes)
keyword_of (found before from) = ok (before, from)
keyword_of (ended _ _) = err SpliceError.injection_failed
keyword_of unbalanced = err SpliceError.injection_failed

keyword_of-Agrees :
    (r : Scanned) (o : Option (Bytes × Bytes)) → Agrees [] r o → keyword_of r ≡ ok_or_failed o
keyword_of-Agrees (found gap from) o h = rw h refl
keyword_of-Agrees (ended gap m) o h = rw h refl
keyword_of-Agrees unbalanced o h = rw h refl

module _ (u : ℕ) (kw : Bytes) (letter : 65 ≤ u) where
  -- One step of both, where they agree on the rest.
  round-Agrees :
      (before : Bytes) (c : ℕ) (s : Bytes) (m : Mode) (p : Place)
      → place_after before (some start) ≡ some p
      → Stepped c s m p
      → ((n : Mode) (q : Place)
          → place_after (before ++ c ∷ []) (some start) ≡ some q
          → Linked s n q
          → Agrees
              (before ++ c ∷ [])
              (scan false ((u ∷ kw) ∷ []) (ends_in_word (before ++ c ∷ [])) n s)
              (first_cut (stands_on_top (u ∷ kw)) (before ++ c ∷ []) s))
      → Agrees before
          (scan false ((u ∷ kw) ∷ []) (ends_in_word before) m (c ∷ s))
          (first_cut (stands_on_top (u ∷ kw)) before (c ∷ s))
  round-Agrees before c s m p h (both_stop e r k) rest =
      rw (scan-stop (u ∷ kw) (ends_in_word before) c s m e) (
        first_cut-skips (u ∷ kw) before c s p h (not_at_mark u kw c s letter k)
        ∙ no_cut (u ∷ kw) (before ++ c ∷ []) s (place_after-next before c h ∙ r))
  round-Agrees before c s m p h (both_go n q e r l g) rest =
      let k : (keyword_at (u ∷ kw) (c ∷ s) ≡ false)
          ⊎ ((n.in_str ≡ p.quoted) × (n.depth ≡ p.depth)) =
        elim g [ inl mark ↦ inl (not_at_mark u kw c s letter mark) | inr same ↦ inr same ] in
      rw
        (
          scan-round (u ∷ kw) (ends_in_word before) c s m n e,
          first_cut-round (u ∷ kw) before c s p h,
          same_guard (ends_in_word before) (keyword_at (u ∷ kw) (c ∷ s)) n p k,
        )
        (choose before (is_top (some p) && not (ends_in_word before) && keyword_at (u ∷ kw) (c ∷ s))
          c s (scan false ((u ∷ kw) ∷ []) (is_word_char c) n s)
          (first_cut (stands_on_top (u ∷ kw)) (before ++ c ∷ []) s)
          (rw (ends_in_word-append before c) at (rest n q (place_after-next before c h ∙ r) l)))

  scan-Agrees :
      (before s : Bytes) (m : Mode) (p : Place)
      → place_after before (some start) ≡ some p
      → Linked s m p
      → Agrees before
          (scan false ((u ∷ kw) ∷ []) (ends_in_word before) m s)
          (first_cut (stands_on_top (u ∷ kw)) before s)
  unfolding scan first_cut
  scan-Agrees before [] m p h l = refl
  scan-Agrees before (c ∷ s) m p h l =
      round-Agrees before c s m p h (step-Stepped c s m p l)
        (λ n q. scan-Agrees (before ++ c ∷ []) s n q)

  -- The loop finds a keyword that begins with a byte from 65 on, as letters are, exactly at the first
  -- cut at which it stands as a word of its own, outside strings and parentheses, with no parenthesis
  -- before it that closes nothing; and without such a cut it fails.
  pub scan_to_keyword-first_cut :
      (s : Bytes)
      → scan_to_keyword (u ∷ kw) s ≡ ok_or_failed (first_cut (stands_on_top (u ∷ kw)) [] s)
  unfolding scan_to_keyword ends_in_word place_after
  scan_to_keyword-first_cut s =
      keyword_of-Agrees (scan false ((u ∷ kw) ∷ []) false outside s)
        (first_cut (stands_on_top (u ∷ kw)) [] s)
        (scan-Agrees [] s outside start refl (plain refl refl refl))
