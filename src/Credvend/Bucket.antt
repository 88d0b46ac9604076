-- ===== src/Credvend/Bucket.antt =====
-- The bucket that internal/credvend/sessionpolicy takes from a warehouse.
use neksur.Prelude.{
  ◌≡◌, refl, sym, ap, ◌∙◌, Bool, true, false, not, some, [], ◌∷◌, ◌++◌, ◌==◌, Bytes, codes,
  is_empty, strip_prefix, all, arith, Bool-cases, Option-cases, ◌↔◌, inl, inr,
}
use neksur.Credvend.Policy.{before_slash, extract_bucket_from_warehouse}

unfoldable pub has_no_slash : Bytes → Bool
has_no_slash s = all (λ c. not (c == b'/')) s

pub before_slash-append :
    (b rest : Bytes) → has_no_slash b ≡ true → before_slash (b ++ (b'/' ∷ rest)) ≡ some b
unfolding before_slash has_no_slash
before_slash-append [] rest h = refl
before_slash-append (c ∷ b) rest h = elim (Bool-cases (c == b'/')) [
  | inl y ↦ cc (rw y at h)
  | inr n ↦ rw (n, before_slash-append b rest (rw n at h)) refl
]

pub some_eq : {a b : Bytes} → some a ≡ some b → a ≡ b
some_eq h = cc

-- The text before the slash, and the slash.
before_slash-append_rest :
    (s b : Bytes)
    → before_slash s ≡ some b
    → (rest : Bytes) × (s ≡ b ++ (b'/' ∷ rest)) × (has_no_slash b ≡ true)
unfolding before_slash has_no_slash
before_slash-append_rest [] b h = cc
before_slash-append_rest (c ∷ s) b h = elim (Bool-cases (c == b'/')) [
  | inl y ↦
      let e : b ≡ [] = sym (some_eq (rw y at h)) in
      let k : c ≡ b'/' = ground arith in (s, rw (e, k) refl, rw e refl)
  | inr n ↦ elim (Option-cases (before_slash s)) [
    | inl m ↦ cc (rw (n, m) at h)
    | inr (a, m) ↦
        let e : b ≡ c ∷ a = sym (some_eq (rw (n, m) at h)) in
        let (rest, whole, free) : (rest : Bytes) × (s ≡ a ++ (b'/' ∷ rest))
            × (has_no_slash a ≡ true) =
          before_slash-append_rest s a m in
        (rest, rw e (ap (◌∷◌ c) whole), rw (e, n) free)
  ]
]

append-strip_prefix : (kw s t : Bytes) → strip_prefix kw s ≡ some t → s ≡ kw ++ t
unfolding strip_prefix
append-strip_prefix [] s t h = some_eq h
append-strip_prefix (k ∷ kw) [] t h = cc
append-strip_prefix (k ∷ kw) (c ∷ s) t h = elim (Bool-cases (k == c)) [
  | inl y ↦
      let e : c ≡ k = ground arith in rw e (ap (◌∷◌ k) (append-strip_prefix kw s t (rw y at h)))
  | inr n ↦ cc (rw n at h)
]

-- The warehouse is the scheme, the bucket, a slash and more; the bucket is not empty and has no slash.
pub IsWarehouse : Bytes → Bytes → Type 0
IsWarehouse warehouse bucket =
    (rest : Bytes) × (warehouse ≡ codes "s3://" ++ (bucket ++ (b'/' ∷ rest)))
    × (has_no_slash bucket ≡ true)
    × (is_empty bucket ≡ false)

-- The bucket that is taken from a warehouse is the text between the scheme `s3://` and the next slash,
-- and none is taken exactly if there is no such text or it is empty.
pub extract_bucket_from_warehouse-IsWarehouse :
    (warehouse bucket : Bytes)
    → (extract_bucket_from_warehouse warehouse ≡ some bucket) ↔ IsWarehouse warehouse bucket
unfolding extract_bucket_from_warehouse IsWarehouse
extract_bucket_from_warehouse-IsWarehouse warehouse bucket = (there, back)
  where
    there : extract_bucket_from_warehouse warehouse ≡ some bucket → IsWarehouse warehouse bucket
    there h = elim (Option-cases (strip_prefix (codes "s3://") warehouse)) [
      | inl m ↦ cc (rw m at h)
      | inr (after, m) ↦ elim (Option-cases (before_slash after)) [
        | inl k ↦ cc (rw (m, k) at h)
        | inr (b, k) ↦ elim (Bool-cases (is_empty b)) [
          | inl y ↦ cc (rw (m, k, y) at h)
          | inr n ↦
              let e : b ≡ bucket = some_eq (rw (m, k, n) at h) in
              let (rest, whole, free) : (rest : Bytes) × (after ≡ b ++ (b'/' ∷ rest))
                  × (has_no_slash b ≡ true) =
                before_slash-append_rest after b k in
              (
                rest,
                append-strip_prefix (codes "s3://") warehouse after m
                    ∙ ap (codes "s3://" ++◌) (whole ∙ ap (◌++ (b'/' ∷ rest)) e),
                ap has_no_slash (sym e) ∙ free,
                ap is_empty (sym e) ∙ n,
              )
        ]
      ]
    ]

    back : IsWarehouse warehouse bucket → extract_bucket_from_warehouse warehouse ≡ some bucket
    back (rest, whole, free, n) = rw (whole, before_slash-append bucket rest free, n) refl
