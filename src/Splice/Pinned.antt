-- ===== src/Splice/Pinned.antt =====
-- What internal/sqlproxy/dialect/splice.go writes for a snapshot pin.
use neksur.Prelude.{
  ℕ, ◌≡◌, refl, Bool, true, ◌||◌, [], ◌∷◌, ◌==◌, arith, Bytes, all, ok, Bool-cases, inl, inr,
}
use neksur.Fragment.Lexer.{is_digit}
use neksur.Splice.Rewrite.{PinFromDialect, is_decimal_int, rewrite_from_for_snapshot_pin}

abbrev pub is_id_byte : ℕ → Bool
is_id_byte c = is_digit c || c == b'-'

digits_are : (s : Bytes) → all is_digit s ≡ true → all is_id_byte s ≡ true
digits_are [] h = refl
digits_are (c ∷ s) h = ground (arith, digits_are s)

decimal_bytes : (id : Bytes) → is_decimal_int id ≡ true → all is_id_byte id ≡ true
unfolding is_decimal_int
decimal_bytes [] h = cc
decimal_bytes (c ∷ s) h = ground (arith, digits_are s)

-- A query is rewritten for a snapshot only if the identifier is made of digits and `-` alone, so it
-- can hold no quote and no space; whatever else it holds fails the rewrite.
pub rewrite_from-digits :
    (query id : Bytes) (dialect : PinFromDialect) {out : Bytes}
    → rewrite_from_for_snapshot_pin query id dialect ≡ ok out
    → all is_id_byte id ≡ true
unfolding rewrite_from_for_snapshot_pin
rewrite_from-digits query id dialect h = elim (Bool-cases (is_decimal_int id)) [
  | inl e ↦ decimal_bytes id e
  | inr e ↦ cc (rw (rewrite_from_for_snapshot_pin, e) at h)
]
