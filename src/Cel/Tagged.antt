-- ===== src/Cel/Tagged.antt =====
-- What `classification_satisfied` of internal/policy/cel/functions.go asks of a table.
use mathlib.Core.List.{Memᴰ}
use mathlib.Core.List.Memᴰ
use neksur.Prelude.{
  ◌≡◌, refl, sym, ap, ◌∙◌, ◌↔◌, ◌⊎◌, inl, inr, Bool, true, false, not, ◌&&◌, ◌||◌, Option, none,
  some, List, ◌∷◌, if◌then◌else◌, Bytes, codes, same, same→eq, same_refl, Bool-cases, Option-cases,
  and_left, and_right,
}
use neksur.Cel.Value.{Any, any_map, Fields, Items, no_items, item, as_map, find_string, find_slice}
use neksur.Cel.Functions.{tags_by_col, has_tag, all_tagged, classification_satisfied_impl}
use neksur.Cel.Found.{elements, as_map_eq, some_fields}

-- An entry gives the column the tag.
pub IsTagged : Bytes → Bytes → Items → Type 0
IsTagged col tag entries =
    (e : Fields) × Memᴰ (any_map e) (elements entries)
    × (find_string (codes "column_name") e ≡ some col)
    × (find_string (codes "tag") e ≡ some tag)

IsTagged-tail :
    (col tag : Bytes) (v : Any) (vs : Items) → IsTagged col tag vs → IsTagged col tag (item v vs)
unfolding IsTagged
IsTagged-tail col tag v vs (e, m, c, t) = (e, Memᴰ.tail m, c, t)

or_cases : (a b : Bool) → (a || b) ≡ true → (a ≡ true) ⊎ (b ≡ true)
or_cases true b h = inl refl
or_cases false b h = inr h

or_right : (a b : Bool) → b ≡ true → (a || b) ≡ true
or_right true b h = refl
or_right false b h = h

has_tag-IsTagged :
    (col tag : Bytes) (entries : Items)
    → has_tag col tag (tags_by_col entries) ≡ true
    → IsTagged col tag entries
unfolding has_tag tags_by_col IsTagged
has_tag-IsTagged col tag no_items h = cc
has_tag-IsTagged col tag (item v vs) h = elim (Option-cases (as_map v)) [
  | inl m ↦ IsTagged-tail col tag v vs (has_tag-IsTagged col tag vs (simp (tags_by_col, m) at h))
  | inr (e, m) ↦ elim (Option-cases (find_string (codes "column_name") e)) [
    | inl c ↦
        IsTagged-tail col tag v vs (has_tag-IsTagged col tag vs (simp (tags_by_col, m, c) at h))
    | inr (a, c) ↦ elim (Option-cases (find_string (codes "tag") e)) [
      | inl t ↦
          IsTagged-tail col tag v vs
            (has_tag-IsTagged col tag vs (simp (tags_by_col, m, c, t) at h))
      | inr (b, t) ↦
          elim (or_cases (same a col && same b tag) (has_tag col tag (tags_by_col vs))
            (simp (tags_by_col, has_tag, m, c, t) at h)) [
              | inl k ↦ (
                e,
                Memᴰ.head (sym (as_map_eq v e m)),
                c ∙ ap some (same→eq a col (and_left (same a col) (same b tag) k)),
                t ∙ ap some (same→eq b tag (and_right (same a col) (same b tag) k)),
              )
              | inr k ↦ IsTagged-tail col tag v vs (has_tag-IsTagged col tag vs k)
            ]
    ]
  ]
]

tagged_later :
    (col tag : Bytes) (o : Option Fields) (pairs : List (Bytes × Bytes))
    → has_tag col tag pairs ≡ true
    → has_tag col tag (elim o [
      | none ↦ pairs
      | some e ↦ elim (find_string (codes "column_name") e) [
        | none ↦ pairs
        | some a ↦ elim (find_string (codes "tag") e) [ none ↦ pairs | some b ↦ (a, b) ∷ pairs ]
      ]
    ])
      ≡ true
unfolding has_tag
tagged_later col tag none pairs h = h
tagged_later col tag (some e) pairs h = elim (Option-cases (find_string (codes "column_name") e)) [
  | inl c ↦ rw c h
  | inr (a, c) ↦ elim (Option-cases (find_string (codes "tag") e)) [
    | inl t ↦ rw (c, t) h
    | inr (b, t) ↦ rw (c, t) (or_right (same a col && same b tag) (has_tag col tag pairs) h)
  ]
]

tagged_here :
    (col tag : Bytes) (e : Fields) (o : Option Fields) (pairs : List (Bytes × Bytes))
    → o ≡ some e
    → find_string (codes "column_name") e ≡ some col
    → find_string (codes "tag") e ≡ some tag
    → has_tag col tag (elim o [
      | none ↦ pairs
      | some e ↦ elim (find_string (codes "column_name") e) [
        | none ↦ pairs
        | some a ↦ elim (find_string (codes "tag") e) [ none ↦ pairs | some b ↦ (a, b) ∷ pairs ]
      ]
    ])
      ≡ true
unfolding has_tag
tagged_here col tag e none pairs k c t = cc
tagged_here col tag e (some f) pairs k c t =
    let i : f ≡ e = some_fields k in
    let c' : find_string (codes "column_name") f ≡ some col =
      ap (find_string (codes "column_name")) i ∙ c in
    let t' : find_string (codes "tag") f ≡ some tag = ap (find_string (codes "tag")) i ∙ t in
    rw (c', t', same_refl col, same_refl tag) refl

IsTagged-has_tag :
    (col tag : Bytes) (entries : Items)
    → IsTagged col tag entries
    → has_tag col tag (tags_by_col entries) ≡ true
unfolding has_tag tags_by_col IsTagged
IsTagged-has_tag col tag no_items (e, m, c, t) = elim m [ ]
IsTagged-has_tag col tag (item v vs) (e, m, c, t) = elim (Memᴰ.cases_cons m) [
  | inl k ↦ tagged_here col tag e (as_map v) (tags_by_col vs) (ap as_map (sym k)) c t
  | inr later ↦
      tagged_later col tag (as_map v) (tags_by_col vs)
        (IsTagged-has_tag col tag vs (e, later, c, t))
]

-- Each column whose name matches has the tag.
pub AllTagged : (Bytes → Bool) → Bytes → Items → Items → Type 0
AllTagged matches tag entries columns =
    (f : Fields) (name : Bytes)
    → Memᴰ (any_map f) (elements columns)
    → find_string (codes "name") f ≡ some name
    → matches name ≡ true
    → IsTagged name tag entries

-- One column of the walk: it passes if it is no map, has no name, does not match, or has the tag.
column_passes : (Bytes → Bool) → Bytes → List (Bytes × Bytes) → Any → Bool → Bool
column_passes matches tag tags v rest = elim (as_map v) [
  | none ↦ rest
  | some entry ↦ elim (find_string (codes "name") entry) [
    | none ↦ rest
    | some name ↦
        if not (matches name) then rest else if not (has_tag name tag tags) then false else rest
  ]
]

passes_rest :
    (matches : Bytes → Bool) (tag : Bytes) (tags : List (Bytes × Bytes)) (v : Any) (rest : Bool)
    → column_passes matches tag tags v rest ≡ true
    → rest ≡ true
unfolding column_passes
passes_rest matches tag tags v rest h = elim (Option-cases (as_map v)) [
  | inl m ↦ simp (column_passes, m) at h
  | inr (e, m) ↦ elim (Option-cases (find_string (codes "name") e)) [
    | inl n ↦ simp (column_passes, m, n) at h
    | inr (name, n) ↦ elim (Bool-cases (matches name)) [
      | inr k ↦ simp (column_passes, m, n, k) at h
      | inl k ↦ elim (Bool-cases (has_tag name tag tags)) [
        | inl g ↦ simp (column_passes, m, n, k, g) at h
        | inr g ↦ cc (simp (column_passes, m, n, k, g) at h)
      ]
    ]
  ]
]

passes_here :
    (matches : Bytes → Bool) (tag : Bytes) (tags : List (Bytes × Bytes)) (v : Any) (f : Fields)
    (name : Bytes) (rest : Bool)
    → any_map f ≡ v
    → find_string (codes "name") f ≡ some name
    → matches name ≡ true
    → column_passes matches tag tags v rest ≡ true
    → has_tag name tag tags ≡ true
unfolding column_passes
passes_here matches tag tags v f name rest is n k h = elim (Bool-cases (has_tag name tag tags)) [
  | inl g ↦ g
  | inr g ↦
      let m : as_map v ≡ some f = ap as_map (sym is) in cc (simp (column_passes, m, n, k, g) at h)
]

all_tagged-AllTagged :
    (matches : Bytes → Bool) (tag : Bytes) (entries columns : Items)
    → all_tagged matches tag (tags_by_col entries) columns ≡ true
    → AllTagged matches tag entries columns
unfolding all_tagged AllTagged column_passes
all_tagged-AllTagged matches tag entries no_items h f name m n k = elim m [ ]
all_tagged-AllTagged matches tag entries (item v vs) h f name m n k = elim (Memᴰ.cases_cons m) [
  | inl is ↦ has_tag-IsTagged name tag entries (
      passes_here matches tag (tags_by_col entries) v f name
        (all_tagged matches tag (tags_by_col entries) vs) is n k h)
  | inr later ↦
      all_tagged-AllTagged matches tag entries vs
        (passes_rest matches tag (tags_by_col entries) v
          (all_tagged matches tag (tags_by_col entries) vs) h)
        f name later n k
]

AllTagged-all_tagged :
    (matches : Bytes → Bool) (tag : Bytes) (entries columns : Items)
    → AllTagged matches tag entries columns
    → all_tagged matches tag (tags_by_col entries) columns ≡ true
unfolding all_tagged AllTagged column_passes
AllTagged-all_tagged matches tag entries no_items h = refl
AllTagged-all_tagged matches tag entries (item v vs) h =
    let rest : all_tagged matches tag (tags_by_col entries) vs ≡ true =
      AllTagged-all_tagged matches tag entries vs (λ f name m n k. h f name (Memᴰ.tail m) n k) in
    elim (Option-cases (as_map v)) [
      | inl m ↦ simp (all_tagged, m) rest
      | inr (e, m) ↦ elim (Option-cases (find_string (codes "name") e)) [
        | inl n ↦ simp (all_tagged, m, n) rest
        | inr (name, n) ↦ elim (Bool-cases (matches name)) [
          | inr k ↦ simp (all_tagged, m, n, k) rest
          | inl k ↦
              let g : has_tag name tag (tags_by_col entries) ≡ true =
                IsTagged-has_tag name tag entries
                  (h e name (Memᴰ.head (sym (as_map_eq v e m))) n k) in
              simp (all_tagged, m, n, k, g) rest
        ]
      ]
    ]

-- What the binding asks of a table.
pub Satisfied : (Bytes → Option (Bytes → Bool)) → Fields → Bytes → Bytes → Type 0
Satisfied compile table pattern tag =
    (matches : Bytes → Bool) × (entries : Items) × (columns : Items) × (compile pattern
      ≡ some matches)
    × (find_slice (codes "classifications") table ≡ some entries)
    × (find_slice (codes "columns") table ≡ some columns)
    × AllTagged matches tag entries columns

-- A required classification is satisfied exactly if the pattern is a regular expression, the table has
-- the two lists, and each column with a name that matches the pattern has an entry with that name and
-- the tag; what is no map or has no such text is passed over in both lists.
pub classification_satisfied_impl-Satisfied :
    (compile : Bytes → Option (Bytes → Bool)) (table : Fields) (pattern tag : Bytes)
    → (classification_satisfied_impl compile table pattern tag ≡ true)
      ↔ Satisfied compile table pattern tag
unfolding classification_satisfied_impl Satisfied
classification_satisfied_impl-Satisfied compile table pattern tag = (there, back)
  where
    there :
        classification_satisfied_impl compile table pattern tag ≡ true
        → Satisfied compile table pattern tag
    there h = elim (Option-cases (compile pattern)) [
      | inl a ↦ cc (simp (classification_satisfied_impl, a) at h)
      | inr (matches, a) ↦ elim (Option-cases (find_slice (codes "classifications") table)) [
        | inl b ↦ cc (simp (classification_satisfied_impl, a, b) at h)
        | inr (entries, b) ↦ elim (Option-cases (find_slice (codes "columns") table)) [
          | inl c ↦ cc (simp (classification_satisfied_impl, a, b, c) at h)
          | inr (columns, c) ↦ (
            matches,
            entries,
            columns,
            a,
            b,
            c,
            all_tagged-AllTagged matches tag entries columns
                (simp (classification_satisfied_impl, a, b, c) at h),
          )
        ]
      ]
    ]

    back :
        Satisfied compile table pattern tag
        → classification_satisfied_impl compile table pattern tag ≡ true
    back (matches, entries, columns, a, b, c, h) =
        simp (classification_satisfied_impl, a, b, c)
          (AllTagged-all_tagged matches tag entries columns h)
