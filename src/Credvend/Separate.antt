-- ===== src/Credvend/Separate.antt =====
-- Which tables the session policies of internal/credvend/sessionpolicy tell apart.
use neksur.Prelude.{
  ℕ, ◌≡◌, refl, sym, ap, ◌∙◌, true, none, some, List, [], ◌∷◌, ◌++◌, ◌≢◌, Bytes, codes, join,
  strip_prefix, strip_prefix-append, append_assoc, all, Option-cases, inl, inr, and_left, and_right,
}
use neksur.Iceberg.Catalog.{TableRef}
use neksur.Credvend.Policy.{
  Statement, before_slash, extract_bucket_from_warehouse, table_s3_prefix_from_ref, resource_of,
  build,
}
use neksur.Credvend.Bucket.{has_no_slash, before_slash-append, some_eq}

-- The parts of a path, each with a slash behind it.
terminated : List Bytes → Bytes
terminated [] = []
terminated (x ∷ xs) = x ++ (b'/' ∷ terminated xs)

terminated-join :
    (x : Bytes) (xs : List Bytes) (end : Bytes)
    → join (codes "/") (x ∷ xs) ++ (b'/' ∷ end) ≡ terminated (x ∷ xs) ++ end
unfolding join terminated
terminated-join x [] end = sym (append_assoc x (b'/' ∷ []) end)
terminated-join x (y ∷ ys) end =
    append_assoc x (b'/' ∷ join (codes "/") (y ∷ ys)) (b'/' ∷ end)
    ∙ ap (λ r. x ++ (b'/' ∷ r)) (terminated-join y ys end)
    ∙ sym (append_assoc x (b'/' ∷ terminated (y ∷ ys)) end)

cons_eq : {a b : ℕ} {s t : Bytes} → a ∷ s ≡ b ∷ t → (a ≡ b) × (s ≡ t)
cons_eq h = (cc, cc)

cancel : (p t u : Bytes) → p ++ t ≡ p ++ u → t ≡ u
cancel p t u e =
    some_eq (sym (strip_prefix-append p t) ∙ ap (strip_prefix p) e ∙ strip_prefix-append p u)

first_part :
    (x y r s : Bytes)
    → has_no_slash x ≡ true
    → has_no_slash y ≡ true
    → x ++ (b'/' ∷ r) ≡ y ++ (b'/' ∷ s)
    → (x ≡ y) × (r ≡ s)
first_part x y r s a b e =
    let k : x ≡ y =
      some_eq (sym (before_slash-append x r a) ∙ ap before_slash e ∙ before_slash-append y s b) in
    (k, (cons_eq (cancel y (b'/' ∷ r) (b'/' ∷ s) (ap (◌++ (b'/' ∷ r)) (sym k) ∙ e))).1)

star_alone : (y r : Bytes) → has_no_slash y ≡ true → b'*' ∷ [] ≢ y ++ (b'/' ∷ r)
unfolding before_slash
star_alone y r h e = let k : none ≡ some y = ap before_slash e ∙ before_slash-append y r h in cc

terminated_eq :
    (xs ys : List Bytes)
    → all has_no_slash xs ≡ true
    → all has_no_slash ys ≡ true
    → terminated xs ++ (b'*' ∷ []) ≡ terminated ys ++ (b'*' ∷ [])
    → xs ≡ ys
unfolding terminated
terminated_eq [] [] a b e = refl
terminated_eq [] (y ∷ ys) a b e =
    elim (star_alone y (terminated ys ++ (b'*' ∷ []))
      (and_left (has_no_slash y) (all has_no_slash ys) b)
      (e ∙ append_assoc y (b'/' ∷ terminated ys) (b'*' ∷ []))) [ ]
terminated_eq (x ∷ xs) [] a b e =
    elim (star_alone x (terminated xs ++ (b'*' ∷ []))
      (and_left (has_no_slash x) (all has_no_slash xs) a)
      (sym e ∙ append_assoc x (b'/' ∷ terminated xs) (b'*' ∷ []))) [ ]
terminated_eq (x ∷ xs) (y ∷ ys) a b e =
    let (head, rest) : (x ≡ y) × (terminated xs ++ (b'*' ∷ []) ≡ terminated ys ++ (b'*' ∷ [])) =
      first_part x y (terminated xs ++ (b'*' ∷ [])) (terminated ys ++ (b'*' ∷ []))
        (and_left (has_no_slash x) (all has_no_slash xs) a)
        (and_left (has_no_slash y) (all has_no_slash ys) b)
        (sym (append_assoc x (b'/' ∷ terminated xs) (b'*' ∷ []))
          ∙ e
          ∙ append_assoc y (b'/' ∷ terminated ys) (b'*' ∷ [])) in
    rw head (
      ap (◌∷◌ y) (
        terminated_eq xs ys (and_right (has_no_slash x) (all has_no_slash xs) a)
          (and_right (has_no_slash y) (all has_no_slash ys) b) rest))

unfoldable pub parts : TableRef → List Bytes
parts ref = ref.namespace ++ (ref.name ∷ [])

statement_eq : {a b : Statement} → some a ≡ some b → a ≡ b
statement_eq h = cc

prefix_parts :
    (ref : TableRef)
    → table_s3_prefix_from_ref ref ++ codes "/*" ≡ terminated (parts ref) ++ (b'*' ∷ [])
unfolding table_s3_prefix_from_ref parts
prefix_parts ref = of_parts ref.namespace ref.name
  where
    of_parts :
        (ns : List Bytes) (n : Bytes)
        → join (codes "/") (ns ++ (n ∷ [])) ++ codes "/*"
          ≡ terminated (ns ++ (n ∷ [])) ++ (b'*' ∷ [])
    of_parts [] n = terminated-join n [] (b'*' ∷ [])
    of_parts (x ∷ xs) n = terminated-join x (xs ++ (n ∷ [])) (b'*' ∷ [])

list_cons_eq : {a b : Bytes} {s t : List Bytes} → a ∷ s ≡ b ∷ t → (a ≡ b) × (s ≡ t)
list_cons_eq h = (cc, cc)

not_nil : (xs : List Bytes) (a : Bytes) → [] ≢ xs ++ (a ∷ [])
not_nil [] a h = cc
not_nil (x ∷ xs) a h = cc

last_eq : (xs ys : List Bytes) (a b : Bytes) → xs ++ (a ∷ []) ≡ ys ++ (b ∷ []) → (xs ≡ ys) × (a ≡ b)
last_eq [] [] a b e = (refl, (list_cons_eq e).0)
last_eq [] (y ∷ ys) a b e = elim (not_nil ys b (list_cons_eq e).1) [ ]
last_eq (x ∷ xs) [] a b e = elim (not_nil xs a (sym (list_cons_eq e).1)) [ ]
last_eq (x ∷ xs) (y ∷ ys) a b e =
    let (k, r) : (xs ≡ ys) × (a ≡ b) = last_eq xs ys a b (list_cons_eq e).1 in
    (cc ((list_cons_eq e).0, k), r)

fields : List Bytes → Bytes → TableRef
fields ns n = record { namespace = ns; name = n }

table_eq :
    (t u : TableRef)
    → t.namespace ≡ u.namespace
    → t.name ≡ u.name
    → fields t.namespace t.name ≡ fields u.namespace u.name
table_eq t u k n = cc

resource_eq :
    (bucket : Bytes) (t u : TableRef)
    → all has_no_slash (parts t) ≡ true
    → all has_no_slash (parts u) ≡ true
    → resource_of bucket t ≡ resource_of bucket u
    → t ≡ u
unfolding resource_of parts fields
resource_eq bucket t u a b e =
    let after_bucket =
      cancel bucket (codes "/" ++ (table_s3_prefix_from_ref t ++ codes "/*"))
        (codes "/" ++ (table_s3_prefix_from_ref u ++ codes "/*"))
        (cancel (codes "arn:aws:s3:::")
          (bucket ++ (codes "/" ++ (table_s3_prefix_from_ref t ++ codes "/*")))
          (bucket ++ (codes "/" ++ (table_s3_prefix_from_ref u ++ codes "/*"))) e) in
    let same_parts : parts t ≡ parts u =
      terminated_eq (parts t) (parts u) a b
        (sym (prefix_parts t) ∙ (cons_eq after_bucket).1 ∙ prefix_parts u) in
    let (k, n) : (t.namespace ≡ u.namespace) × (t.name ≡ u.name) =
      last_eq t.namespace u.namespace t.name u.name same_parts in
    table_eq t u k n

-- For one warehouse, two session policies are the same only if they are for the same table and region,
-- if no component of a namespace or name has a slash.
pub build_separates :
    (t u : TableRef) (r q warehouse : Bytes) (d : Statement)
    → all has_no_slash (parts t) ≡ true
    → all has_no_slash (parts u) ≡ true
    → build t r warehouse ≡ some d
    → build u q warehouse ≡ some d
    → (t ≡ u) × (r ≡ q)
unfolding build
build_separates t u r q warehouse d a b e f =
    elim (Option-cases (extract_bucket_from_warehouse warehouse)) [
      | inl m ↦ cc (rw m at e)
      | inr (bucket, m) ↦
          let k = statement_eq (rw m at e) in
          let l = statement_eq (rw m at f) in
          (
            resource_eq bucket t u a b (list_cons_eq (ap (λ s. s.resource) (k ∙ sym l))).0,
            ap (λ s. s.requested_region) (k ∙ sym l),
          )
    ]
