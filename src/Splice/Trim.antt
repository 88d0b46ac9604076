-- ===== src/Splice/Trim.antt =====
-- `strings.TrimSpace`, on UTF-8 bytes.
use neksur.Prelude.{ℕ, zero, suc, Bool, ◌&&◌, ◌||◌, [], ◌∷◌, ◌==◌, leb, if◌then◌else◌, Bytes}
use mathlib.Core.List.{reverse}

abbrev is_ascii_space : ℕ → Bool
is_ascii_space c = (leb 9 c && leb c 13) || c == 32

-- U+0085 and U+00A0
abbrev is_two_byte_space : ℕ → ℕ → Bool
is_two_byte_space a b = a == 0xC2 && (b == 0x85 || b == 0xA0)

-- U+1680, U+2000 to U+200A, U+2028, U+2029, U+202F, U+205F, U+3000
abbrev is_three_byte_space : ℕ → ℕ → ℕ → Bool
is_three_byte_space a b c =
    (a == 0xE1 && b == 0x9A && c == 0x80)
    || (a == 0xE2
        && b == 0x80
        && ((leb 0x80 c && leb c 0x8A) || c == 0xA8 || c == 0xA9 || c == 0xAF))
    || (a == 0xE2 && b == 0x81 && c == 0x9F)
    || (a == 0xE3 && b == 0x80 && c == 0x80)

-- How many bytes the white-space rune at the front takes, 0 if there is none.
unfoldable pub space_length : Bytes → ℕ
space_length [] = 0
space_length (a ∷ []) = if is_ascii_space a then 1 else 0
space_length (a ∷ b ∷ []) = if is_ascii_space a then 1 else if is_two_byte_space a b then 2 else 0
space_length (a ∷ b ∷ c ∷ s) =
    if is_ascii_space a
    then 1
    else if is_two_byte_space a b
    then 2
    else if is_three_byte_space a b c
    then 3
    else 0

-- The same at the end of a string, which is given in reverse.
unfoldable pub space_length_back : Bytes → ℕ
space_length_back [] = 0
space_length_back (a ∷ []) = if is_ascii_space a then 1 else 0
space_length_back (a ∷ b ∷ []) =
    if is_ascii_space a then 1 else if is_two_byte_space b a then 2 else 0
space_length_back (a ∷ b ∷ c ∷ s) =
    if is_ascii_space a
    then 1
    else if is_two_byte_space b a
    then 2
    else if is_three_byte_space c b a
    then 3
    else 0

-- Drops `skip` bytes, and then the runes that `width` finds to be white space.
unfoldable pub drop_space : (Bytes → ℕ) → ℕ → Bytes → Bytes
drop_space width skip [] = []
drop_space width (suc skip) (c ∷ s) = drop_space width skip s
drop_space width zero (c ∷ s) = elim (width (c ∷ s)) [ zero ↦ c ∷ s | suc k ↦ drop_space width k s ]

unfoldable pub trim_space : Bytes → Bytes
unfolding space_length space_length_back drop_space
trim_space s = reverse (drop_space space_length_back 0 (reverse (drop_space space_length 0 s)))
