-- ===== src/Graph/ReadBack.antt =====
-- A literal of internal/graph/safe_cypher.go, read by a Cypher parser.
use neksur.Prelude.{
  ℕ, suc, ◌+◌, ◌≡◌, ◌≢◌, refl, sym, true, false, Option, none, some, [], ◌∷◌, ◌++◌, Bytes, Result,
  ok, err, all, take, get_elem?, arith, Bool-cases, subst, and_left, and_right, inl, inr,
}
use neksur.Graph.Literal.{
  UnsafeLiteral, is_byte_of, cypher_literal_allow, first_unsafe, sanitize_cypher_literal,
}

-- What the answer says of the literal: it is the literal, and each byte is allowed; or it is the
-- first byte that is not.
pub Sanitized : Bytes → Result UnsafeLiteral Bytes → Type 0
Sanitized s (ok out) = (out ≡ s) × (all cypher_literal_allow s ≡ true)
Sanitized s (err bad) =
    (get_elem? s bad.offset ≡ some bad.byte)
    × (cypher_literal_allow bad.byte ≡ false)
    × (all cypher_literal_allow (take bad.offset s) ≡ true)

First : ℕ → Bytes → Option UnsafeLiteral → Type 0
First i s none = all cypher_literal_allow s ≡ true
First i s (some bad) =
    (k : ℕ) × (bad.offset ≡ i + k)
    × (get_elem? s k ≡ some bad.byte)
    × (cypher_literal_allow bad.byte ≡ false)
    × (all cypher_literal_allow (take k s) ≡ true)

First-behind :
    (i b : ℕ) (s : Bytes) (o : Option UnsafeLiteral)
    → cypher_literal_allow b ≡ true
    → First (suc i) s o
    → First i (b ∷ s) o
unfolding First
First-behind i b s none a h = rw a h
First-behind i b s (some bad) a (k, at, found, refused, before) =
    (suc k, omega (arith, at), found, refused, rw a before)

first_unsafe-First : (i : ℕ) (s : Bytes) → First i s (first_unsafe i s)
unfolding first_unsafe First
first_unsafe-First i [] = refl
first_unsafe-First i (b ∷ s) = elim (Bool-cases (cypher_literal_allow b)) [
  | inl a ↦ rw a (First-behind i b s (first_unsafe (suc i) s) a (first_unsafe-First (suc i) s))
  | inr a ↦ rw a (0, omega arith, refl, a, refl)
]

sanitized :
    (s : Bytes) (o : Option UnsafeLiteral)
    → First 0 s o
    → Sanitized s (elim o [ none ↦ ok s | some bad ↦ err bad ])
unfolding First Sanitized
sanitized s none h = (refl, h)
sanitized s (some bad) (k, at, found, refused, before) =
    let e : k ≡ bad.offset = omega (arith, at) in (rw (sym e) found, refused, rw (sym e) before)

-- A literal is returned unchanged if each of its bytes is on the list of allowed ones; otherwise the
-- error names the first byte that is not, and its offset.
pub sanitize_cypher_literal-Sanitized : (s : Bytes) → Sanitized s (sanitize_cypher_literal s)
unfolding sanitize_cypher_literal
sanitize_cypher_literal-Sanitized s = sanitized s (first_unsafe 0 s) (first_unsafe-First 0 s)

-- What a Cypher parser does with the rest of a literal in single quotes: it ends at a quote that is
-- not escaped, and a byte that is neither a quote nor a backslash stands for itself.
pub record ReadsLiterals (read : Bytes → Option (Bytes × Bytes)) : Type 0 where
  pub at_quote : (rest : Bytes) → read (b'\'' ∷ rest) ≡ some ([], rest)
  pub at_plain :
      (c : ℕ) (s t rest : Bytes)
      → c ≢ b'\''
      → c ≢ b'\\'
      → read s ≡ some (t, rest)
      → read (c ∷ s) ≡ some (c ∷ t, rest)

allowed_other : (c k : ℕ) → cypher_literal_allow k ≡ false → cypher_literal_allow c ≡ true → c ≢ k
allowed_other c k refused h e = cc

all_allowed : (s : Bytes) → Sanitized s (ok s) → all cypher_literal_allow s ≡ true
unfolding Sanitized
all_allowed s (e, h) = h

read_allowed :
    (read : Bytes → Option (Bytes × Bytes))
    → ReadsLiterals read
    → (s rest : Bytes) → all cypher_literal_allow s ≡ true
    → read (s ++ (b'\'' ∷ rest)) ≡ some (s, rest)
unfolding cypher_literal_allow
read_allowed read laws [] rest h = laws.at_quote rest
read_allowed read laws (c ∷ s) rest h =
    let a = and_left (cypher_literal_allow c) (all cypher_literal_allow s) h in
    laws.at_plain c (s ++ (b'\'' ∷ rest)) s rest (allowed_other c b'\'' refl a)
      (allowed_other c b'\\' refl a)
      (read_allowed read laws s rest
        (and_right (cypher_literal_allow c) (all cypher_literal_allow s) h))

no_dollar : (s : Bytes) → all cypher_literal_allow s ≡ true → is_byte_of b'$' s ≡ false
unfolding cypher_literal_allow
no_dollar [] h = refl
no_dollar (c ∷ s) h =
    let a =
      allowed_other c b'$' refl
        (and_left (cypher_literal_allow c) (all cypher_literal_allow s) h) in
    ground
      (arith, a, no_dollar s (and_right (cypher_literal_allow c) (all cypher_literal_allow s) h))

-- A literal that passes, put between single quotes into a statement, is read back whole by a Cypher
-- parser that obeys the two rules, with the statement's next bytes left over, and it has no dollar
-- sign that could end the statement's own quotation.
pub sanitize_read_back :
    (read : Bytes → Option (Bytes × Bytes))
    → ReadsLiterals read
    → (s out rest : Bytes) → sanitize_cypher_literal s ≡ ok out
    → (read (out ++ (b'\'' ∷ rest)) ≡ some (s, rest)) × (is_byte_of b'$' out ≡ false)
unfolding Sanitized
sanitize_read_back read laws s out rest h =
    let (e, a) : (out ≡ s) × (all cypher_literal_allow s ≡ true) =
      subst (Sanitized s) h (sanitize_cypher_literal-Sanitized s) in
    (rw e (read_allowed read laws s rest a), rw e (no_dollar s a))
