-- ===== src/Splice/Cuts.antt =====
-- A search for a keyword through all cuts of a query, which reads the bytes before each cut anew: what
-- `scanToKeyword` of internal/sqlproxy/dialect/splice.go is compared with.
use neksur.Prelude.{
  ℕ, ◌+◌, ◌-◌, ◌≡◌, refl, Bool, false, not, ◌&&◌, Option, none, some, [], ◌∷◌, ◌++◌, ◌==◌,
  if◌then◌else◌, Bytes,
}
use neksur.Fragment.Lexer.{is_word_char}
use neksur.Splice.Scan.{keyword_at}

-- A place in a query: each quote opens or closes a string, a doubled one too, and parentheses count
-- outside strings.
pub record Place : Type 0 where
  pub quoted : Bool
  pub depth : ℕ

abbrev pub start : Place
start = record { quoted = false; depth = 0 }

abbrev pub read_byte : ℕ → Place → Option Place
read_byte c p =
    if c == b'\''
    then some (record p { quoted = not p.quoted })
    else if p.quoted
    then some p
    else if c == b'('
    then some (record p { depth = p.depth + 1 })
    else if c == b')'
    then (if p.depth == 0 then none else some (record p { depth = p.depth - 1 }))
    else some p

-- Where the bytes lead; `none` behind a closing parenthesis that closes nothing.
unfoldable pub place_after : Bytes → Option Place → Option Place
place_after [] o = o
place_after (c ∷ s) none = none
place_after (c ∷ s) (some p) = place_after s (read_byte c p)

unfoldable pub ends_in_word : Bytes → Bool
ends_in_word [] = false
ends_in_word (c ∷ []) = is_word_char c
ends_in_word (c ∷ d ∷ s) = ends_in_word (d ∷ s)

abbrev pub is_top : Option Place → Bool
is_top none = false
is_top (some p) = not p.quoted && p.depth == 0

-- The keyword stands behind `before`, outside strings and parentheses, as a word of its own.
unfoldable pub stands_on_top : Bytes → Bytes → Bytes → Bool
unfolding place_after ends_in_word
stands_on_top kw before from =
    is_top (place_after before (some start)) && not (ends_in_word before) && keyword_at kw from

-- The first cut of `before ++ s`, at `s` or behind, that passes the test.
unfoldable pub first_cut : (Bytes → Bytes → Bool) → Bytes → Bytes → Option (Bytes × Bytes)
first_cut test before [] = none
first_cut test before (c ∷ s) =
    let rest = first_cut test (before ++ c ∷ []) s in
    if test before (c ∷ s) then some (before, c ∷ s) else rest

pub place_after-append :
    (s t : Bytes) (o : Option Place) → place_after (s ++ t) o ≡ place_after t (place_after s o)
unfolding place_after
place_after-append [] t o = refl
place_after-append (c ∷ s) [] none = refl
place_after-append (c ∷ s) (d ∷ t) none = refl
place_after-append (c ∷ s) t (some p) = place_after-append s t (read_byte c p)

pub ends_in_word-append : (s : Bytes) (c : ℕ) → ends_in_word (s ++ c ∷ []) ≡ is_word_char c
unfolding ends_in_word
ends_in_word-append [] c = refl
ends_in_word-append (d ∷ []) c = refl
ends_in_word-append (d ∷ e ∷ s) c = ends_in_word-append (e ∷ s) c

-- Behind a closing parenthesis that closes nothing there is no cut.
pub no_cut :
    (kw before s : Bytes)
    → place_after before (some start) ≡ none
    → first_cut (stands_on_top kw) before s ≡ none
unfolding first_cut stands_on_top place_after
no_cut kw before [] h = refl
no_cut kw before (c ∷ s) h =
    rw (stands_on_top, h)
      (no_cut kw (before ++ c ∷ []) s
        (rw (place_after-append before (c ∷ []) (some start), h) refl))
