-- ===== src/Tests/Assoc.antt =====
-- A cache without a bound, as a list of its entries: a concrete one for the runs.
use neksur.Prelude.{
  ◌≡◌, ◌≢◌, refl, sym, ap, ◌∙◌, Bool, true, false, Option, none, some, List, [], ◌∷◌, if◌then◌else◌,
  Bool-cases, inl, inr, Lru, IsLru,
}

abbrev pub Assoc : Type 0 → Type 0 → Type 0
Assoc K V = List (K × V)

differ :
    {K : Type 0} (same_key : K → K → Bool)
    → ((j k : K) → same_key j k ≡ true → j ≡ k)
    → (j k : K) → j ≢ k
    → same_key j k ≡ false
differ same_key same→eq j k n = elim (Bool-cases (same_key j k)) [
  | inl y ↦ elim (n (same→eq j k y)) [ ]
  | inr y ↦ y
]

module _ {K V : Type 0} (same_key : K → K → Bool) where
  unfoldable pub found : K → Assoc K V → Option V
  found k [] = none
  found k ((j, v) ∷ c) = if same_key k j then some v else found k c

  unfoldable pub without : K → Assoc K V → Assoc K V
  without k [] = []
  without k ((j, v) ∷ c) = let rest = without k c in if same_key k j then rest else (j, v) ∷ rest

  abbrev pub assoc : Lru K V (Assoc K V)
  assoc = record {
    get = λ k c. (found k c, c);
    peek = found;
    add = λ k v c. (k, v) ∷ c;
    remove = without;
  }

  module _ (same→eq : (j k : K) → same_key j k ≡ true → j ≡ k)
      (same_refl : (k : K) → same_key k k ≡ true) where
    not_found : (k : K) (w : V) (c : Assoc K V) → found k (without k c) ≢ some w
    unfolding found without
    not_found k w [] h = cc
    not_found k w ((j, v) ∷ c) h = elim (Bool-cases (same_key k j)) [
      | inl y ↦ not_found k w c (rw y at h)
      | inr y ↦ not_found k w c (rw (y, y) at h)
    ]

    found_other : (j k : K) (c : Assoc K V) → j ≢ k → found j (without k c) ≡ found j c
    unfolding found without
    found_other j k [] n = refl
    found_other j k ((i, v) ∷ c) n = elim (Bool-cases (same_key k i)) [
      | inl y ↦
          let e : same_key j i ≡ false =
            ap (same_key j) (sym (same→eq k i y)) ∙ differ same_key same→eq j k n in
          rw (y, e) (found_other j k c n)
      | inr y ↦ rw y (ap (λ x. if same_key j i then some v else x) (found_other j k c n))
    ]

    pub assoc-IsLru : IsLru assoc
    unfolding found
    assoc-IsLru = record {
      get-peek = λ k c. refl;
      peek-get = λ j k c. refl;
      peek-add = λ k v c. rw (same_refl k) refl;
      add_other = λ j k v w c n e. rw (differ same_key same→eq j k n) at e;
      remove_self = not_found;
      remove_other = found_other;
    }
