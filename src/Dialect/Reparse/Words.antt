-- ===== src/Dialect/Reparse/Words.antt =====
-- Identifiers and keywords in printed text, as the lexer of sql_grammar.go reads them.
use neksur.Prelude.{
  ℕ, ◌≡◌, refl, ap, ◌∙◌, Bool, true, false, Option, none, some, [], ◌∷◌, ◌++◌, ◌==◌, arith,
  if◌then◌else◌, Bytes, codes, all, stops, span-append, strip_fold, equal_fold, to_upper, is_space,
  Bool-cases, inl, inr,
}
use neksur.Fragment.Lexer.{
  skip_space, consume, expect_keyword, expect_ident, is_ident_start, is_word_char, starts_word,
}
use neksur.Fragment.Predicate.{is_ident}

not_space : (c : ℕ) → is_ident_start c ≡ true → is_space c ≡ false
not_space c h = ground arith

pub skip_space-ident : (id rest : Bytes) → is_ident id ≡ true → skip_space (id ++ rest) ≡ id ++ rest
unfolding skip_space
skip_space-ident [] rest h = ground arith
skip_space-ident (c ∷ id) rest h = rw (not_space c (ground arith))

pub expect_ident-ident :
    (id rest : Bytes)
    → is_ident id ≡ true
    → stops is_word_char rest ≡ true
    → expect_ident (id ++ rest) ≡ (some id, rest)
unfolding expect_ident
expect_ident-ident [] rest h k = ground arith
expect_ident-ident (c ∷ id) rest h k = ground (arith, not_space c, span-append is_word_char id rest)

same_class : (k c : ℕ) → is_word_char k ≡ true → to_upper k ≡ to_upper c → is_word_char c ≡ true
same_class k c h e = ground arith

-- Of a word that is not the keyword, the keyword takes at most a proper part.
abbrev InWord : Option Bytes → Type 0
InWord none = Unit
InWord (some rest) = starts_word rest ≡ true

all-tail : (c : ℕ) (s : Bytes) → all is_word_char (c ∷ s) ≡ true → all is_word_char s ≡ true
all-tail c s h = ground arith

is_ident-all : (id : Bytes) → is_ident id ≡ true → all is_word_char id ≡ true
is_ident-all [] h = refl
is_ident-all (c ∷ id) h = ground arith

strip_fold-InWord :
    (kw id rest : Bytes)
    → all is_word_char kw ≡ true
    → all is_word_char id ≡ true
    → stops is_word_char rest ≡ true
    → equal_fold kw id ≡ false
    → InWord (strip_fold kw (id ++ rest))
unfolding strip_fold
strip_fold-InWord [] [] rest hk hi hr h = cc
strip_fold-InWord [] (c ∷ id) rest hk hi hr h = ground arith
strip_fold-InWord (k ∷ kw) [] [] hk hi hr h = tt
strip_fold-InWord (k ∷ kw) [] (c ∷ rest) hk hi hr h = elim (Bool-cases (to_upper k == to_upper c)) [
  | inl e ↦ absurd (grind (arith, same_class k c))
  | inr e ↦ rw e tt
]
strip_fold-InWord (k ∷ kw) (c ∷ id) rest hk hi hr h = elim (Bool-cases (to_upper k == to_upper c)) [
  | inl e ↦ rw e (strip_fold-InWord kw id rest (all-tail k kw hk) (all-tail c id hi) hr (rw e at h))
  | inr e ↦ rw e tt
]

in_word :
    (t : Bytes) (found : Option Bytes)
    → InWord found
    → ◌≡◌ {A = Bool × Bytes}
        (elim found [
          | none ↦ (false, t)
          | some rest ↦ if starts_word rest then (false, t) else (true, rest)
        ])
        (false, t)
in_word t none h = refl
in_word t (some rest) h = rw h

-- A keyword is not found at another word.
pub expect_keyword-other :
    (kw id rest : Bytes)
    → all is_word_char kw ≡ true
    → is_ident id ≡ true
    → stops is_word_char rest ≡ true
    → equal_fold kw id ≡ false
    → expect_keyword kw (id ++ rest) ≡ (false, id ++ rest)
unfolding expect_keyword
expect_keyword-other kw id rest hk hi hr h =
    let e = skip_space-ident id rest hi in
    in_word (skip_space (id ++ rest)) (strip_fold kw (skip_space (id ++ rest)))
      (rw e (strip_fold-InWord kw id rest hk (is_ident-all id hi) hr h))
    ∙ ap (λ (t : Bytes). (false, t)) e

-- An opening parenthesis is not found at a word.
pub consume-word :
    (id rest : Bytes) → is_ident id ≡ true → consume (codes "(") (id ++ rest) ≡ (false, id ++ rest)
unfolding consume
consume-word [] rest h = ground arith
consume-word (c ∷ id) rest h = ground (arith, not_space c)
