-- ===== src/Prelude/Text.antt =====
-- Go strings as lists of bytes, and what the code uses of the packages `strings` and `unicode`.
use Prim.Native.Char.{code}
use Prim.Native.Nat.{ℕ, ◌+◌, ◌-◌}
use Prim.Native.String.{String}
use mathlib.Core.Path.{◌≡◌, refl}
use mathlib.Core.Bool.{Bool, true, false, not, ◌&&◌, ◌||◌}
use mathlib.Core.Option.{Option, none, some}
use mathlib.Core.List.{List, [], ◌∷◌, ◌++◌}
use native.Mathlib.Omega.{arith}
use neksur.Prelude.Lists.{all, length}
use neksur.Prelude.Tests.{leb, ◌==◌, if◌then◌else◌}

abbrev pub Bytes : Type 0
Bytes = List ℕ

-- The bytes of an ASCII text.
abbrev pub codes : String → Bytes
codes String.[] = []
codes (String.◌∷◌ c s) = code c ∷ codes s

-- `a == b` on strings
abbrev pub same : Bytes → Bytes → Bool
same [] [] = true
same (a ∷ s) (b ∷ t) = (a == b) && same s t
same _ _ = false

abbrev pub is_empty {ℓ} : {A : Type ℓ} → List A → Bool
is_empty [] = true
is_empty (_ ∷ _) = false

-- The upper-case form of an ASCII letter; any other byte is left alone.
abbrev pub to_upper : ℕ → ℕ
to_upper c = if leb b'a' c && leb c b'z' then c - 32 else c

-- `strings.EqualFold` and equality under `strings.ToUpper`, for strings of one length in bytes of
-- which one is ASCII: a rune of several bytes leaves fewer runes than the other string has.
abbrev pub equal_fold : Bytes → Bytes → Bool
equal_fold [] [] = true
equal_fold (a ∷ s) (b ∷ t) = (to_upper a == to_upper b) && equal_fold s t
equal_fold _ _ = false

-- `unicode.IsSpace(rune(c))` at a byte: ASCII white space, and the code points 0x85 and 0xA0.
abbrev pub is_space : ℕ → Bool
is_space c = (leb 9 c && leb c 13) || c == 32 || c == 0x85 || c == 0xA0

-- `strings.HasPrefix`, with what follows the prefix.
unfoldable pub strip_prefix : Bytes → Bytes → Option Bytes
strip_prefix [] s = some s
strip_prefix (k ∷ kw) [] = none
strip_prefix (k ∷ kw) (c ∷ s) = if k == c then strip_prefix kw s else none

-- The same up to the case of letters.
unfoldable pub strip_fold : Bytes → Bytes → Option Bytes
strip_fold [] s = some s
strip_fold (k ∷ kw) [] = none
strip_fold (k ∷ kw) (c ∷ s) = if to_upper k == to_upper c then strip_fold kw s else none

-- The loop over the bytes that pass a test: the longest such prefix, and what follows it.
unfoldable pub span : (ℕ → Bool) → Bytes → Bytes × Bytes
span p [] = ([], [])
span p (c ∷ s) = let (w, rest) = span p s in if p c then (c ∷ w, rest) else ([], c ∷ s)

-- `strings.Join`
unfoldable pub join : Bytes → List Bytes → Bytes
join sep [] = []
join sep (s ∷ []) = s
join sep (s ∷ t ∷ ts) = s ++ (sep ++ join sep (t ∷ ts))

-- No byte comes next that passes the test.
abbrev pub stops : (ℕ → Bool) → Bytes → Bool
stops p [] = true
stops p (c ∷ _) = not (p c)

pub span-append :
    (p : ℕ → Bool) (w rest : Bytes)
    → all p w ≡ true
    → stops p rest ≡ true
    → span p (w ++ rest) ≡ (w, rest)
unfolding span
span-append p [] [] h k = refl
span-append p [] (c ∷ rest) h k = ground arith
span-append p (c ∷ w) rest h k = ground (arith, span-append p w rest)

pub record IsSpan (p : ℕ → Bool) (s w rest : Bytes) : Type 0 where
  pub whole : w ++ rest ≡ s
  pub passes : all p w ≡ true
  pub stopped : stops p rest ≡ true

pub span-IsSpan : (p : ℕ → Bool) (s : Bytes) → IsSpan p s (span p s).0 (span p s).1
unfolding span
span-IsSpan p [] = record { whole = refl; passes = refl; stopped = refl }
span-IsSpan p (c ∷ s) = ground (arith, span-IsSpan p s)

pub same_refl : (s : Bytes) → same s s ≡ true
same_refl [] = refl
same_refl (c ∷ s) = ground (arith, same_refl s)

pub same→eq : (s t : Bytes) → same s t ≡ true → s ≡ t
same→eq [] [] h = refl
same→eq [] (b ∷ t) h = ground arith
same→eq (a ∷ s) [] h = ground arith
same→eq (a ∷ s) (b ∷ t) h = ground (arith, same→eq s t)

pub strip_prefix-append : (s t : Bytes) → strip_prefix s (s ++ t) ≡ some t
unfolding strip_prefix
strip_prefix-append [] t = refl
strip_prefix-append (c ∷ s) t = ground (arith, strip_prefix-append s t)

pub strip_fold-append : (s t : Bytes) → strip_fold s (s ++ t) ≡ some t
unfolding strip_fold
strip_fold-append [] t = refl
strip_fold-append (c ∷ s) t = ground (arith, strip_fold-append s t)

-- What is left, if there is any, with `k` bytes makes `n`.
abbrev pub Leaves : ℕ → ℕ → Option Bytes → Type 0
Leaves n k none = Unit
Leaves n k (some rest) = length rest + k ≡ n

pub strip_prefix-Leaves : (kw s : Bytes) → Leaves (length s) (length kw) (strip_prefix kw s)
unfolding strip_prefix
strip_prefix-Leaves [] s = omega arith
strip_prefix-Leaves (k ∷ kw) [] = tt
strip_prefix-Leaves (k ∷ kw) (c ∷ s) = ground (arith, strip_prefix-Leaves kw s)

pub strip_fold-Leaves : (kw s : Bytes) → Leaves (length s) (length kw) (strip_fold kw s)
unfolding strip_fold
strip_fold-Leaves [] s = omega arith
strip_fold-Leaves (k ∷ kw) [] = tt
strip_fold-Leaves (k ∷ kw) (c ∷ s) = ground (arith, strip_fold-Leaves kw s)
