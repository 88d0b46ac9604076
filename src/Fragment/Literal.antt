-- ===== src/Fragment/Literal.antt =====
-- Literals of internal/policy/compiler/sql_grammar.go: `parseLiteral`.
use neksur.Prelude.{
  ℕ, Bool, true, false, ◌&&◌, ◌||◌, [], ◌∷◌, ◌++◌, ◌==◌, ltb, if◌then◌else◌, Bytes, codes, is_empty,
  span, Result, ok, err, ◌>>=◌,
}
use neksur.Fragment.Ast.{Literal}
use neksur.Fragment.Lexer.{is_digit, skip_space, expect_keyword}

-- `ErrParseFailed`, with what is unread at the offset that the message names. `out_of_fuel` has no
-- counterpart in the program.
pub data Fault : Type 0 where
  parse_failed : Bytes → Fault
  out_of_fuel : Fault

abbrev pub Parser {ℓ} : Type ℓ → Type ℓ
Parser A = Bytes → Result Fault (A × Bytes)

abbrev pub string_kind : Bytes
string_kind = codes "string"

abbrev pub number_kind : Bytes
number_kind = codes "number"

abbrev pub null_kind : Bytes
null_kind = codes "null"

abbrev pub is_control : ℕ → Bool
is_control c = ltb c 0x20 || c == 0x7f

abbrev add_byte : ℕ → Result Fault (Bytes × Bytes) → Result Fault (Bytes × Bytes)
add_byte c r = r >>= λ (v, rest). ok (c ∷ v, rest)

-- The loop over a string literal, after its opening quote: the text with each doubled quote made
-- one, and what follows the closing quote.
unfoldable pub string_body : Bytes → Result Fault (Bytes × Bytes)
string_body [] = err (parse_failed [])
string_body (c ∷ []) =
    if c == b'\''
    then ok ([], [])
    else if is_control c
    then err (parse_failed (c ∷ []))
    else err (parse_failed [])
string_body (c ∷ d ∷ s) = elim (c == b'\'') [
  | true ↦ elim (d == b'\'') [ true ↦ add_byte b'\'' (string_body s) | false ↦ ok ([], d ∷ s) ]
  | false ↦ elim (is_control c) [
    | true ↦ err (parse_failed (c ∷ d ∷ s))
    | false ↦ add_byte c (string_body (d ∷ s))
  ]
]

unfoldable pub sign_span : Bytes → Bytes × Bytes
sign_span [] = ([], [])
sign_span (c ∷ s) = if c == b'+' || c == b'-' then (c ∷ [], s) else ([], c ∷ s)

-- The point and the digits after it, if there is a point.
unfoldable pub point_span : Bytes → Bytes × Bytes
unfolding span
point_span [] = ([], [])
point_span (c ∷ s) =
    if c == b'.' then (let (w, rest) = span is_digit s in (c ∷ w, rest)) else ([], c ∷ s)

abbrev pub tail_bytes : Bytes → Bytes
tail_bytes [] = []
tail_bytes (_ ∷ s) = s

-- The number at the front of `s`, or the keyword NULL if there is no digit.
unfoldable pub number_or_null : Parser Literal
unfolding sign_span span point_span expect_keyword
number_or_null s =
    let (sign, after_sign) = sign_span s in
    let (whole, after_whole) = span is_digit after_sign in
    let (point, rest) = point_span after_whole in
    if is_empty whole && is_empty (tail_bytes point)
    then (let (found, t) = expect_keyword (codes "NULL") s in
        if found
        then ok (record { kind = null_kind; value = codes "NULL" }, t)
        else err (parse_failed t))
    else ok (record { kind = number_kind; value = sign ++ (whole ++ point) }, rest)

unfoldable pub parse_literal : Parser Literal
unfolding skip_space string_body number_or_null
parse_literal s = elim (skip_space s) [
  | [] ↦ err (parse_failed [])
  | c ∷ t ↦
      if c == b'\''
      then (string_body t >>= λ (v, rest). ok (record { kind = string_kind; value = v }, rest))
      else number_or_null (c ∷ t)
]
