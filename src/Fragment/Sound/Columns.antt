-- ===== src/Fragment/Sound/Columns.antt =====
-- What `expectIdent` and `parseColumnRef` of sql_grammar.go return.
use neksur.Prelude.{
  ℕ, suc, ◌<◌, ◌≡◌, refl, ap, true, false, Option, none, some, [], ◌∷◌, ◌++◌, ◌==◌, arith,
  if◌then◌else◌, Bytes, codes, length, length-append, stops, span-IsSpan, strip_fold, equal_fold,
  Bool-cases, inl, inr, ok, err, to_upper,
}
use neksur.Fragment.Ast.{Node, column_ref}
use neksur.Fragment.Lexer.{
  skip_space, consume, expect_keyword, expect_ident, is_ident_start, is_word_char, starts_word,
}
use neksur.Fragment.Literal.{parse_failed}
use neksur.Fragment.Parser.{column_rest, parse_column_ref}
use neksur.Fragment.Predicate.{is_ident, IsColumn, bare, qualified}
use neksur.Fragment.Shrink.{length-skip_space, length-consume}
use neksur.Fragment.Sound.Ensures.{Ensures, holds, rejected, Ensures-weaken}

-- What `expectIdent` found where the white space ends: an identifier, whole.
abbrev pub IdentAt : Bytes → Option Bytes × Bytes → Type 0
IdentAt s (none, _) = Unit
IdentAt s (some id, rest) =
    (is_ident id ≡ true) × (s ≡ id ++ rest) × (stops is_word_char rest ≡ true)

ident_at : (s t : Bytes) → skip_space s ≡ t → IdentAt t (expect_ident s)
unfolding expect_ident
ident_at s [] e = rw (expect_ident, e) tt
ident_at s (c ∷ t) e = elim (Bool-cases (is_ident_start c)) [
  | inl k ↦ rw (expect_ident, e, k) (ground (arith, span-IsSpan is_word_char t))
  | inr k ↦ rw (expect_ident, e, k) tt
]

pub expect_ident-IdentAt : (s : Bytes) → IdentAt (skip_space s) (expect_ident s)
expect_ident-IdentAt s = ident_at s (skip_space s) refl

pub skip_space-skip_space : (s : Bytes) → skip_space (skip_space s) ≡ skip_space s
unfolding skip_space
skip_space-skip_space [] = refl
skip_space-skip_space (c ∷ s) = ground (arith, skip_space-skip_space s)

-- A word that equals a keyword up to case is read as that keyword.
strip_fold-equal_fold :
    (kw id rest : Bytes) → equal_fold kw id ≡ true → strip_fold kw (id ++ rest) ≡ some rest
unfolding strip_fold
strip_fold-equal_fold [] [] rest h = refl
strip_fold-equal_fold [] (c ∷ id) rest h = ground arith
strip_fold-equal_fold (k ∷ kw) [] rest h = ground arith
strip_fold-equal_fold (k ∷ kw) (c ∷ id) rest h = elim (Bool-cases (to_upper k == to_upper c)) [
  | inl e ↦ rw e (strip_fold-equal_fold kw id rest (rw e at h))
  | inr e ↦ cc (rw e at h)
]

pub not_starts_word : (s : Bytes) → stops is_word_char s ≡ true → starts_word s ≡ false
not_starts_word [] h = refl
not_starts_word (c ∷ s) h = ground arith

-- A token that is not there leaves the white space read.
pub consume_absent : (lit s : Bytes) → (consume lit s).0 ≡ false → (consume lit s).1 ≡ skip_space s
unfolding consume
consume_absent lit s h = ground arith

pub expect_keyword_absent :
    (kw s : Bytes) → (expect_keyword kw s).0 ≡ false → (expect_keyword kw s).1 ≡ skip_space s
unfolding expect_keyword
expect_keyword_absent kw s h = ground arith

pub expect_keyword-skip_space :
    (kw s : Bytes) → expect_keyword kw (skip_space s) ≡ expect_keyword kw s
unfolding expect_keyword
expect_keyword-skip_space kw s =
    ap
      (λ (t : Bytes). elim (strip_fold kw t) [
        | none ↦ (false, t)
        | some rest ↦ if starts_word rest then (false, t) else (true, rest)
      ])
      (skip_space-skip_space s)

not_keyword :
    (kw s id rest : Bytes)
    → skip_space s ≡ id ++ rest
    → stops is_word_char rest ≡ true
    → (expect_keyword kw s).0 ≡ false
    → equal_fold kw id ≡ false
unfolding expect_keyword
not_keyword kw s id rest e stop h = elim (Bool-cases (equal_fold kw id)) [
  | inl k ↦ ground (arith, strip_fold-equal_fold kw id rest k, not_starts_word rest stop)
  | inr k ↦ k
]

pub data IsColumnNode : Node → Type 0 where
  column : {table name : Bytes} → IsColumn table name → IsColumnNode (column_ref table name)

-- The second identifier of a qualified column, given what `expectIdent` found.
second_ident :
    (id1 s2 : Bytes) (found : Option Bytes × Bytes)
    → is_ident id1 ≡ true
    → equal_fold (codes "NOT") id1 ≡ false
    → IdentAt s2 found
    → Ensures IsColumnNode (suc (length s2)) (elim found.0 [
      | none ↦ err (parse_failed found.1)
      | some name ↦ ok (column_ref id1 name, found.1)
    ])
second_ident id1 s2 (none, rest) h k f = rejected
second_ident id1 s2 (some name, rest) h k f =
    holds (column (qualified h k f.0)) (omega (arith, ap length f.1, length-append name rest))

column_rest-Ensures :
    (id1 s : Bytes) {n : ℕ}
    → is_ident id1 ≡ true
    → equal_fold (codes "NOT") id1 ≡ false
    → length s < n
    → Ensures IsColumnNode n (column_rest id1 s)
unfolding column_rest
column_rest-Ensures id1 s h k l =
    let dot = consume (codes ".") s in
    elim (Bool-cases dot.0) [
      | inl e ↦
          rw (column_rest, e)
            (Ensures-weaken (ground (arith, length-consume (codes ".") s, length-skip_space dot.1))
              (second_ident id1 (skip_space dot.1) (expect_ident dot.1) h k
                (expect_ident-IdentAt dot.1)))
      | inr e ↦
          rw (column_rest, e)
            (holds (column (bare h k)) (ground (arith, length-consume (codes ".") s)))
    ]

is_ident-length : (id : Bytes) → is_ident id ≡ true → 0 < length id
is_ident-length [] h = ground arith
is_ident-length (c ∷ id) h = omega arith

first_ident :
    (s : Bytes) (found : Option Bytes × Bytes)
    → (expect_keyword (codes "NOT") s).0 ≡ false
    → IdentAt (skip_space s) found
    → Ensures IsColumnNode
        (length s)
        (elim found.0 [ none ↦ err (parse_failed found.1) | some name ↦ column_rest name found.1 ])
first_ident s (none, rest) h f = rejected
first_ident s (some name, rest) h f =
    column_rest-Ensures name rest f.0 (not_keyword (codes "NOT") s name rest f.1 f.2 h) (
      omega (
        arith,
        ap length f.1,
        length-append name rest,
        length-skip_space s,
        is_ident-length name f.0,
      ))

pub parse_column_ref-Ensures :
    (s : Bytes)
    → (expect_keyword (codes "NOT") s).0 ≡ false
    → Ensures IsColumnNode (length s) (parse_column_ref s)
unfolding parse_column_ref
parse_column_ref-Ensures s h = first_ident s (expect_ident s) h (expect_ident-IdentAt s)
