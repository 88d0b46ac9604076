-- ===== src/Dialect/Reparse/Literals.antt =====
-- Literals in printed text, as sql_grammar.go reads them.
use neksur.Prelude.{
  ℕ, ◌≡◌, refl, ◌∙◌, Bool, true, false, ◌&&◌, ◌||◌, not, [], ◌∷◌, ◌++◌, ◌==◌, ==_iff, arith, Bytes,
  codes, all, stops, span-append, is_empty, append_assoc, Bool-cases, inl, inr, ok, ◌>>=◌, is_space,
}
use neksur.Fragment.Ast.{Literal}
use neksur.Fragment.Lexer.{is_digit}
use neksur.Fragment.Literal.{
  is_control, string_body, sign_span, point_span, tail_bytes, number_or_null, parse_literal,
  number_kind,
}
use neksur.Fragment.Predicate.{
  IsSign, no_sign, plus, minus, IsPoint, no_point, point, IsLiteral, a_string, a_number, a_null,
}
use neksur.Dialect.Ast.{double_quotes}
use neksur.Dialect.Print.{print_literal}

-- One more byte of a string, before its closing quote.
string_body-cons :
    (c : ℕ) (s : Bytes)
    → (c == b'\'') ≡ false
    → is_control c ≡ false
    → string_body (c ∷ s) ≡ (string_body s >>= λ (v, rest). ok (c ∷ v, rest))
unfolding string_body
string_body-cons c [] e k = rw (e, k)
string_body-cons c (d ∷ s) e k = rw (e, string_body, k)

string_body_close :
    (d : ℕ) (rest : Bytes)
    → (d == b'\'') ≡ false
    → string_body (b'\'' ∷ d ∷ rest) ≡ ok ([], d ∷ rest)
unfolding string_body
string_body_close d rest e = rw (string_body, e)

string_body_pair :
    (s : Bytes)
    → string_body (b'\'' ∷ b'\'' ∷ s) ≡ (string_body s >>= λ (v, rest). ok (b'\'' ∷ v, rest))
unfolding string_body
string_body_pair s = refl

text-head :
    (c : ℕ) (v : Bytes) → all (λ x. not (is_control x)) (c ∷ v) ≡ true → is_control c ≡ false
text-head c v h = ground arith

text-tail :
    (c : ℕ) (v : Bytes)
    → all (λ x. not (is_control x)) (c ∷ v) ≡ true
    → all (λ x. not (is_control x)) v ≡ true
text-tail c v h = elim (Bool-cases (is_control c)) [ inl e ↦ cc (rw e at h) | inr e ↦ rw e at h ]

string_body-double_quotes :
    (v : Bytes) (d : ℕ) (rest : Bytes)
    → (d == b'\'') ≡ false
    → all (λ c. not (is_control c)) v ≡ true
    → string_body (double_quotes v ++ b'\'' ∷ d ∷ rest) ≡ ok (v, d ∷ rest)
unfolding double_quotes
string_body-double_quotes [] d rest e h = string_body_close d rest e
string_body-double_quotes (c ∷ v) d rest e h = elim (Bool-cases (c == b'\'')) [
  | inl k ↦
      rw (k, (==_iff c b'\'').0 k)
        (rw (
          string_body_pair (double_quotes v ++ b'\'' ∷ d ∷ rest),
          string_body-double_quotes v d rest e (text-tail c v h),
        ))
  | inr k ↦
      rw (k, string_body-cons c (double_quotes v ++ b'\'' ∷ d ∷ rest) k (text-head c v h))
        (rw (string_body-double_quotes v d rest e (text-tail c v h)))
]

-- What may stand behind a literal in printed text.
abbrev pub is_delimiter : ℕ → Bool
is_delimiter d = d == b')' || d == b','

abbrev starts_number : Bytes → Bool
starts_number [] = false
starts_number (c ∷ _) = is_digit c || c == b'.'

number_start :
    (rest : Bytes) {whole p : Bytes}
    → all is_digit whole ≡ true
    → IsPoint whole p
    → starts_number (whole ++ (p ++ rest)) ≡ true
number_start rest {whole = []} h (no_point n) = cc
number_start rest {whole = []} h (point n ds) = refl
number_start rest {whole = c ∷ whole} h (no_point n) = ground arith
number_start rest {whole = c ∷ whole} h (point n ds) = ground arith

sign_span-append :
    {sign : Bytes} (s : Bytes)
    → IsSign sign
    → starts_number s ≡ true
    → sign_span (sign ++ s) ≡ (sign, s)
unfolding sign_span
sign_span-append [] no_sign h = refl
sign_span-append (c ∷ s) no_sign h = ground arith
sign_span-append s plus h = refl
sign_span-append s minus h = refl

module _ (d : ℕ) (rest : Bytes) (ends : is_delimiter d ≡ true) where
  point_span-append :
      {whole p : Bytes} → IsPoint whole p → point_span (p ++ d ∷ rest) ≡ (p, d ∷ rest)
  unfolding point_span
  point_span-append (no_point n) = ground arith
  point_span-append (point {digits = ds} n h) =
      rw (span-append is_digit ds (d ∷ rest) h (ground arith))

  point_stops : {whole p : Bytes} → IsPoint whole p → stops is_digit (p ++ d ∷ rest) ≡ true
  point_stops (no_point n) = ground arith
  point_stops (point n h) = refl

  point_digit :
      {whole p : Bytes} → IsPoint whole p → (is_empty whole && is_empty (tail_bytes p)) ≡ false
  point_digit {whole = []} (no_point n) = n
  point_digit {whole = c ∷ whole} (no_point n) = refl
  point_digit (point n h) = n

  regroup :
      (sign whole p : Bytes)
      → (sign ++ (whole ++ p)) ++ d ∷ rest ≡ sign ++ (whole ++ (p ++ d ∷ rest))
  regroup sign whole p = simp append_assoc

  number_or_null-number :
      {sign whole p : Bytes}
      → IsSign sign
      → all is_digit whole ≡ true
      → IsPoint whole p
      → number_or_null ((sign ++ (whole ++ p)) ++ d ∷ rest)
        ≡ ok (record { kind = number_kind; value = sign ++ (whole ++ p) }, d ∷ rest)
  unfolding number_or_null
  number_or_null-number {sign} {whole} {p} sg h pt = rw (
    number_or_null,
    regroup sign whole p,
    sign_span-append (whole ++ (p ++ d ∷ rest)) sg (number_start (d ∷ rest) h pt),
    span-append is_digit whole (p ++ d ∷ rest) h (point_stops pt),
    point_span-append pt,
    point_digit pt,
  )

-- A sign, a digit or a point begins a number.
starts_unquoted : ℕ → Bool
starts_unquoted c = is_digit c || c == b'.' || c == b'+' || c == b'-'

parse_literal-unquoted :
    (c : ℕ) (s : Bytes) → starts_unquoted c ≡ true → parse_literal (c ∷ s) ≡ number_or_null (c ∷ s)
unfolding parse_literal starts_unquoted
parse_literal-unquoted c s h = rw (parse_literal, spaceless c h, quoteless c h)
  where
    spaceless : (c : ℕ) → starts_unquoted c ≡ true → is_space c ≡ false
    spaceless c h = ground arith

    quoteless : (c : ℕ) → starts_unquoted c ≡ true → (c == b'\'') ≡ false
    quoteless c h = ground arith

parse_literal-starts : (s : Bytes) → starts_number s ≡ true → parse_literal s ≡ number_or_null s
unfolding starts_unquoted
parse_literal-starts [] h = cc
parse_literal-starts (c ∷ s) h = parse_literal-unquoted c s (ground arith)

module _ (d : ℕ) (rest : Bytes) (ends : is_delimiter d ≡ true) where
  parse_literal-number :
      {sign whole p : Bytes}
      → IsSign sign
      → all is_digit whole ≡ true
      → IsPoint whole p
      → parse_literal ((sign ++ (whole ++ p)) ++ d ∷ rest)
        ≡ number_or_null ((sign ++ (whole ++ p)) ++ d ∷ rest)
  unfolding starts_unquoted
  parse_literal-number {whole} {p} no_sign h pt =
      parse_literal-starts ((whole ++ p) ++ d ∷ rest)
        (rw (append_assoc whole p (d ∷ rest)) (number_start (d ∷ rest) h pt))
  parse_literal-number {whole} {p} plus h pt =
      parse_literal-unquoted b'+' ((whole ++ p) ++ d ∷ rest) refl
  parse_literal-number {whole} {p} minus h pt =
      parse_literal-unquoted b'-' ((whole ++ p) ++ d ∷ rest) refl

  -- A printed literal is read back, up to the delimiter behind it.
  pub parse_literal-print :
      {v : Literal} → IsLiteral v → parse_literal (print_literal v ++ d ∷ rest) ≡ ok (v, d ∷ rest)
  unfolding print_literal
  parse_literal-print (a_string {v} h) =
      unfold parse_literal in
      rw (
        append_assoc (double_quotes v) (codes "'") (d ∷ rest),
        string_body-double_quotes v d rest (ground arith) h,
      )
  parse_literal-print (a_number n) = rw n.parts (
      parse_literal-number n.signed n.digits n.pointed
      ∙ number_or_null-number d rest ends n.signed n.digits n.pointed)
  parse_literal-print a_null = unfold parse_literal number_or_null in ground arith

pub parse_literal-space : (s : Bytes) → parse_literal (b' ' ∷ s) ≡ parse_literal s
unfolding parse_literal
parse_literal-space s = refl
