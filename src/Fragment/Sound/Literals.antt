-- ===== src/Fragment/Sound/Literals.antt =====
-- What `parseLiteral` of sql_grammar.go returns.
use neksur.Prelude.{
  ℕ, ◌+◌, ◌≤◌, ◌<◌, ◌≡◌, refl, ap, true, false, ◌&&◌, not, [], ◌∷◌, ◌++◌, ◌==◌, ==_iff, arith,
  Bytes, codes, all, length, length-append, is_empty, span, span-IsSpan, Bool-cases, inl, inr, ok,
  Result, ◌>>=◌,
}
use neksur.Fragment.Lexer.{is_digit, skip_space, expect_keyword}
use neksur.Fragment.Literal.{
  Fault, string_body, is_control, sign_span, point_span, tail_bytes, number_or_null, parse_literal,
}
use neksur.Fragment.Predicate.{
  IsSign, no_sign, plus, minus, IsPoint, no_point, point, IsLiteral, a_string, a_number, a_null,
}
use neksur.Fragment.Shrink.{length-skip_space, length-expect_keyword}
use neksur.Fragment.Sound.Ensures.{Ensures, holds, rejected, Ensures-weaken}

abbrev IsText : Bytes → Type 0
IsText v = all (λ c. not (is_control c)) v ≡ true

add_byte-Ensures :
    (c : ℕ) {n k : ℕ} {r : Result Fault (Bytes × Bytes)}
    → is_control c ≡ false
    → n ≤ k
    → Ensures IsText n r
    → Ensures IsText k (r >>= λ (v, rest). ok (c ∷ v, rest))
add_byte-Ensures c e h (holds p l) = holds (rw e p) (omega arith)
add_byte-Ensures c e h rejected = rejected

string_body-Ensures : (s : Bytes) → Ensures IsText (length s) (string_body s)
unfolding string_body
string_body-Ensures [] = rejected
string_body-Ensures (c ∷ []) = elim (Bool-cases (c == b'\'')) [
  | inl e ↦ rw e (holds refl (omega arith))
  | inr e ↦ elim (Bool-cases (is_control c)) [
    | inl k ↦ rw (e, k) rejected
    | inr k ↦ rw (e, k) rejected
  ]
]
string_body-Ensures (c ∷ d ∷ s) = elim (Bool-cases (c == b'\'')) [
  | inl e ↦ elim (Bool-cases (d == b'\'')) [
    | inl k ↦
        rw (e, string_body, k) (add_byte-Ensures b'\'' refl (omega arith) (string_body-Ensures s))
    | inr k ↦ rw (e, string_body, k) (holds refl (omega arith))
  ]
  | inr e ↦ elim (Bool-cases (is_control c)) [
    | inl k ↦ rw (e, string_body, k) rejected
    | inr k ↦
        rw (e, string_body, k) (add_byte-Ensures c k (omega arith) (string_body-Ensures (d ∷ s)))
  ]
]

sign_span-IsSign : (s : Bytes) → IsSign (sign_span s).0
unfolding sign_span
sign_span-IsSign [] = no_sign
sign_span-IsSign (c ∷ s) = elim (Bool-cases (c == b'+')) [
  | inl e ↦ rw ((==_iff c b'+').0 e) plus
  | inr e ↦ elim (Bool-cases (c == b'-')) [
    | inl k ↦ rw ((==_iff c b'-').0 k) minus
    | inr k ↦ rw (e, k) no_sign
  ]
]

sign_span_whole : (s : Bytes) → (sign_span s).0 ++ (sign_span s).1 ≡ s
unfolding sign_span
sign_span_whole [] = refl
sign_span_whole (c ∷ s) = ground arith

point_span_whole : (s : Bytes) → (point_span s).0 ++ (point_span s).1 ≡ s
unfolding point_span
point_span_whole [] = refl
point_span_whole (c ∷ s) = ground (arith, (span-IsSpan is_digit s).whole)

point_span-IsPoint :
    (whole s : Bytes)
    → (is_empty whole && is_empty (tail_bytes (point_span s).0)) ≡ false
    → IsPoint whole (point_span s).0
unfolding point_span
point_span-IsPoint whole [] h = no_point (ground arith)
point_span-IsPoint whole (c ∷ s) h = elim (Bool-cases (c == b'.')) [
  | inl e ↦ rw e (rw ((==_iff c b'.').0 e) (point (rw e at h) (span-IsSpan is_digit s).passes))
  | inr e ↦ rw e (no_point (ground arith))
]

some_digit :
    (whole p : Bytes)
    → (is_empty whole && is_empty (tail_bytes p)) ≡ false
    → 0 < length whole + length p
some_digit [] [] h = ground arith
some_digit [] (c ∷ p) h = omega arith
some_digit (c ∷ whole) p h = omega arith

-- The bytes of a number and what follows it are the input.
number_length :
    (s : Bytes)
    → let sign = sign_span s in
      let whole = span is_digit sign.1 in
      let p = point_span whole.1 in
      length sign.0 + (length whole.0 + (length p.0 + length p.1)) ≡ length s
number_length s =
    let sign = sign_span s in
    let whole = span is_digit sign.1 in
    let p = point_span whole.1 in
    omega (
      arith,
      ap length (sign_span_whole s),
      ap length (span-IsSpan is_digit sign.1).whole,
      ap length (point_span_whole whole.1),
      length-append sign.0 sign.1,
      length-append whole.0 whole.1,
      length-append p.0 p.1,
    )

number_or_null-Ensures : (s : Bytes) → Ensures IsLiteral (length s) (number_or_null s)
unfolding number_or_null
number_or_null-Ensures s =
    let sign = sign_span s in
    let whole = span is_digit sign.1 in
    let p = point_span whole.1 in
    let null = expect_keyword (codes "NULL") s in
    elim (Bool-cases (is_empty whole.0 && is_empty (tail_bytes p.0))) [
      | inl e ↦ elim (Bool-cases null.0) [
        | inl k ↦ rw (e, k) (holds a_null (ground (arith, length-expect_keyword (codes "NULL") s)))
        | inr k ↦ rw (e, k) rejected
      ]
      | inr e ↦ rw e (
          holds
            (a_number (record {
              sign = sign.0;
              whole = whole.0;
              rest = p.0;
              signed = sign_span-IsSign s;
              digits = (span-IsSpan is_digit sign.1).passes;
              pointed = point_span-IsPoint whole.0 whole.1 e;
              parts = refl;
            }))
            (omega (arith, number_length s, some_digit whole.0 p.0 e)))
    ]

a_string-Ensures :
    {n : ℕ} {r : Result Fault (Bytes × Bytes)}
    → Ensures IsText n r
    → Ensures IsLiteral n
        (r >>= λ (v, rest). ok (record { kind = codes "string"; value = v }, rest))
a_string-Ensures (holds p l) = holds (a_string p) l
a_string-Ensures rejected = rejected

IsLiteral-at : (s t : Bytes) → skip_space s ≡ t → Ensures IsLiteral (length t) (parse_literal s)
unfolding parse_literal
IsLiteral-at s [] e = rw (parse_literal, e) rejected
IsLiteral-at s (c ∷ t) e = elim (Bool-cases (c == b'\'')) [
  | inl q ↦
      rw (parse_literal, e, q)
        (a_string-Ensures (Ensures-weaken (omega arith) (string_body-Ensures t)))
  | inr q ↦ rw (parse_literal, e, q) (number_or_null-Ensures (c ∷ t))
]

pub parse_literal-Ensures : (s : Bytes) → Ensures IsLiteral (length s) (parse_literal s)
parse_literal-Ensures s = Ensures-weaken (length-skip_space s) (IsLiteral-at s (skip_space s) refl)
