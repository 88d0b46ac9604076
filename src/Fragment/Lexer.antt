-- ===== src/Fragment/Lexer.antt =====
-- The lexer of internal/policy/compiler/sql_grammar.go. The state of the parser is what is left to
-- read, `p.src[p.pos:]`; a method returns it beside its result.
use neksur.Prelude.{
  ℕ, Bool, true, false, ◌&&◌, ◌||◌, Option, none, some, [], ◌∷◌, ◌==◌, leb, if◌then◌else◌, Bytes,
  codes, is_space, strip_prefix, strip_fold, span, ◌≡◌, refl,
}

abbrev pub is_ident_start : ℕ → Bool
is_ident_start b = (leb b'a' b && leb b b'z') || (leb b'A' b && leb b b'Z') || b == b'_'

abbrev pub is_digit : ℕ → Bool
is_digit b = leb b'0' b && leb b b'9'

abbrev pub is_word_char : ℕ → Bool
is_word_char b = is_ident_start b || is_digit b

-- A word continues here: there is a next byte, and it is a word character.
abbrev pub starts_word : Bytes → Bool
starts_word [] = false
starts_word (c ∷ _) = is_word_char c

-- `isWordChar(lit[len(lit)-1])`; each literal in the code has a byte
abbrev pub ends_word : Bytes → Bool
ends_word [] = false
ends_word (c ∷ []) = is_word_char c
ends_word (_ ∷ d ∷ s) = ends_word (d ∷ s)

unfoldable pub skip_space : Bytes → Bytes
skip_space [] = []
skip_space (c ∷ s) = if is_space c then skip_space s else c ∷ s

abbrev no_bytes : Bytes → Bool
no_bytes [] = true
no_bytes (_ ∷ _) = false

unfoldable pub at_end : Bytes → Bool × Bytes
unfolding skip_space
at_end s = let t = skip_space s in (no_bytes t, t)

-- The byte that comes next, 0 at the end.
unfoldable pub peek : Bytes → ℕ × Bytes
unfolding skip_space
peek s = elim (skip_space s) [ [] ↦ (0, []) | c ∷ t ↦ (c, c ∷ t) ]

unfoldable pub consume : Bytes → Bytes → Bool × Bytes
unfolding skip_space strip_prefix
consume lit s =
    let t = skip_space s in
    elim (strip_prefix lit t) [
      | none ↦ (false, t)
      | some rest ↦ if ends_word lit && starts_word rest then (false, t) else (true, rest)
    ]

unfoldable pub expect_keyword : Bytes → Bytes → Bool × Bytes
unfolding skip_space strip_fold
expect_keyword kw s =
    let t = skip_space s in
    elim (strip_fold kw t) [
      | none ↦ (false, t)
      | some rest ↦ if starts_word rest then (false, t) else (true, rest)
    ]

unfoldable pub expect_ident : Bytes → Option Bytes × Bytes
unfolding skip_space span
expect_ident s = elim (skip_space s) [
  | [] ↦ (none, [])
  | c ∷ t ↦
      if is_ident_start c
      then (let (w, rest) = span is_word_char t in (some (c ∷ w), rest))
      else (none, c ∷ t)
]

ident_test : expect_ident (codes " ab_1.c") ≡ (some (codes "ab_1"), codes ".c")
unfolding expect_ident
ident_test = refl
