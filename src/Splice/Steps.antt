-- ===== src/Splice/Steps.antt =====
-- The bytes that the loops of internal/sqlproxy/dialect/splice.go read, and the place where they lead.
use neksur.Prelude.{
  ℕ, ◌+◌, ◌-◌, ◌≡◌, refl, sym, ap, ◌∙◌, ◌⊎◌, inl, inr, Bool, true, false, not, ◌||◌, none, some,
  ◌∷◌, ◌==◌, Bytes, Bool-cases,
}
use neksur.Splice.Scan.{Mode, starts_quote, step}
use neksur.Splice.Cuts.{Place, read_byte}

-- The loop's mode at the place that the bytes lead to. Between the two quotes of a doubled one the
-- loop counts itself inside the string.
pub data Linked (s : Bytes) (m : Mode) (p : Place) : Type 0 where
  plain : m.escaped ≡ false → m.in_str ≡ p.quoted → m.depth ≡ p.depth → Linked s m p
  doubled :
      m.escaped ≡ true
      → m.in_str ≡ true
      → p.quoted ≡ false
      → m.depth ≡ p.depth
      → starts_quote s ≡ true
      → Linked s m p

abbrev pub is_mark : ℕ → Bool
is_mark c = c == b'\'' || c == b'(' || c == b')'

pub data Stepped (c : ℕ) (s : Bytes) (m : Mode) (p : Place) : Type 0 where
  both_stop : step false c s m ≡ none → read_byte c p ≡ none → is_mark c ≡ true → Stepped c s m p
  both_go :
      (n : Mode) (q : Place)
      → step false c s m ≡ some n
      → read_byte c p ≡ some q
      → Linked s n q
      → (is_mark c ≡ true) ⊎ ((n.in_str ≡ p.quoted) × (n.depth ≡ p.depth))
      → Stepped c s m p

pub step-Stepped : (c : ℕ) (s : Bytes) (m : Mode) (p : Place) → Linked (c ∷ s) m p → Stepped c s m p
unfolding step
step-Stepped c s m p (doubled e i q d k) =
    both_go (record m { escaped = false }) (record p { quoted = not p.quoted }) (rw (step, e) refl)
      (rw k refl) (plain refl (rw q i) d) (inl (rw k refl))
step-Stepped c s m p (plain e i d) = elim (Bool-cases (c == b'\'')) [
  | inl k ↦ elim (Bool-cases m.in_str) [
    | inl inside ↦ elim (Bool-cases (starts_quote s)) [
      | inl twice ↦
          both_go (record m { escaped = true }) (record p { quoted = not p.quoted })
            (rw (step, e, inside, k, twice) refl) (rw k refl)
            (doubled refl inside (rw (sym i ∙ inside) refl) d twice) (inl (rw k refl))
      | inr once ↦
          both_go (record m { in_str = false }) (record p { quoted = not p.quoted })
            (rw (step, e, inside, k, once) refl) (rw k refl) (plain e (rw (sym i ∙ inside) refl) d)
            (inl (rw k refl))
    ]
    | inr out ↦
        both_go (record m { in_str = true }) (record p { quoted = not p.quoted })
          (rw (step, e, out, k) refl) (rw k refl) (plain e (rw (sym i ∙ out) refl) d)
          (inl (rw k refl))
  ]
  | inr k ↦ elim (Bool-cases m.in_str) [
    | inl inside ↦
        both_go m p (rw (step, e, inside, k) refl) (rw (k, sym i ∙ inside) refl) (plain e i d)
          (inr (i, d))
    | inr out ↦ elim (Bool-cases (c == b'(')) [
      | inl o ↦
          both_go (record m { depth = m.depth + 1 }) (record p { depth = p.depth + 1 })
            (rw (step, e, out, k, o) refl) (rw (k, sym i ∙ out, o) refl)
            (plain e i (ap (λ x. x + 1) d)) (inl (rw (k, o) refl))
      | inr o ↦ elim (Bool-cases (c == b')')) [
        | inl z ↦ elim (Bool-cases (p.depth == 0)) [
          | inl w ↦
              both_stop (rw (step, e, out, k, o, z, d, w) refl) (rw (k, sym i ∙ out, o, z, w) refl)
                (rw (k, o, z) refl)
          | inr w ↦
              both_go (record m { depth = m.depth - 1 }) (record p { depth = p.depth - 1 })
                (rw (step, e, out, k, o, z, d, w) refl) (rw (k, sym i ∙ out, o, z, w) refl)
                (plain e i (ap (λ x. x - 1) d)) (inl (rw (k, o, z) refl))
        ]
        | inr z ↦
            both_go m p (rw (step, e, out, k, o, z) refl) (rw (k, sym i ∙ out, o, z) refl)
              (plain e i d) (inr (i, d))
      ]
    ]
  ]
]
