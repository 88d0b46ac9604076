-- ===== src/Graph/Literal.antt =====
-- internal/graph/safe_cypher.go. A panic of `MustSanitizeCypherLiteral` is `none`.
use neksur.Prelude.{
  ℕ, suc, Bool, true, false, ◌&&◌, ◌||◌, Option, none, some, [], ◌∷◌, if◌then◌else◌, ◌==◌, leb,
  Bytes, codes, Result, ok, err,
}

-- `ErrCypherUnsafeLiteral`, with the byte and its offset.
pub record UnsafeLiteral : Type 0 where
  pub byte : ℕ
  pub offset : ℕ

abbrev pub is_byte_of : ℕ → Bytes → Bool
is_byte_of c [] = false
is_byte_of c (k ∷ ks) = c == k || is_byte_of c ks

abbrev punctuation : Bytes
punctuation = codes "._-/:@+=~%?&,[]()* "

unfoldable pub cypher_literal_allow : ℕ → Bool
cypher_literal_allow b =
    (leb b'a' b && leb b b'z')
    || (leb b'A' b && leb b b'Z')
    || (leb b'0' b && leb b b'9')
    || is_byte_of b punctuation

-- The loop at offset `i`.
unfoldable pub first_unsafe : ℕ → Bytes → Option UnsafeLiteral
unfolding cypher_literal_allow
first_unsafe i [] = none
first_unsafe i (b ∷ s) =
    let later = first_unsafe (suc i) s in
    if cypher_literal_allow b then later else some (record { byte = b; offset = i })

unfoldable pub sanitize_cypher_literal : Bytes → Result UnsafeLiteral Bytes
unfolding first_unsafe
sanitize_cypher_literal s = elim (first_unsafe 0 s) [ none ↦ ok s | some bad ↦ err bad ]

unfoldable pub must_sanitize_cypher_literal : Bytes → Option Bytes
unfolding sanitize_cypher_literal
must_sanitize_cypher_literal s = elim (sanitize_cypher_literal s) [
  | ok out ↦ some out
  | err bad ↦ none
]

unfoldable pub is_safe_cypher_literal : Bytes → Bool
unfolding sanitize_cypher_literal
is_safe_cypher_literal s = elim (sanitize_cypher_literal s) [ ok out ↦ true | err bad ↦ false ]
