-- ===== src/Cel/Found.antt =====
-- What `has_column` and `role` of internal/policy/cel/functions.go find.
use mathlib.Core.List.{Memᴰ}
use mathlib.Core.List.Memᴰ
use neksur.Prelude.{
  ◌≡◌, refl, sym, ap, ◌∙◌, ◌↔◌, inl, inr, Bool, true, false, Option, none, some, List, [], ◌∷◌,
  if◌then◌else◌, Bytes, codes, same, same→eq, same_refl, is_empty, Bool-cases, Option-cases,
}
use neksur.Cel.Value.{
  Any, any_string, any_map, Fields, Items, no_items, item, as_string, as_map, find_string, find_map,
  find_slice,
}
use neksur.Cel.Functions.{name_of, has_field_named, has_named_field, has_column_impl}

abbrev pub elements : Items → List Any
elements no_items = []
elements (item v vs) = v ∷ elements vs

pub some_fields : {a b : Fields} → some a ≡ some b → a ≡ b
some_fields h = cc

pub as_map_eq : (v : Any) (f : Fields) → as_map v ≡ some f → v ≡ any_map f
as_map_eq (any_map g) f h = ap any_map (some_fields h)
as_map_eq (any_string s) f h = cc
as_map_eq _ f h = cc

as_string_eq : (v : Any) (s : Bytes) → as_string v ≡ some s → v ≡ any_string s
as_string_eq (any_string t) s h = cc
as_string_eq (any_map g) s h = cc
as_string_eq _ s h = cc

-- Equal to a name that is not empty, the name is there.
name_of_there :
    (f : Fields) (name : Bytes)
    → is_empty name ≡ false
    → same (name_of f) name ≡ true
    → find_string (codes "name") f ≡ some name
unfolding name_of
name_of_there f name full e = elim (Option-cases (find_string (codes "name") f)) [
  | inl m ↦ let k : [] ≡ name = same→eq [] name (rw (name_of, m) at e) in cc (ap is_empty k, full)
  | inr (s, m) ↦ m ∙ ap some (same→eq s name (rw (name_of, m) at e))
]

-- An element is a map whose entry `name` is the string.
pub HasNamed : Bytes → Items → Type 0
HasNamed name vs =
    (f : Fields) × Memᴰ (any_map f) (elements vs) × (find_string (codes "name") f ≡ some name)

HasNamed-tail : (name : Bytes) (v : Any) (vs : Items) → HasNamed name vs → HasNamed name (item v vs)
unfolding HasNamed
HasNamed-tail name v vs (f, m, e) = (f, Memᴰ.tail m, e)

has_field_named-HasNamed :
    (name : Bytes) (vs : Items)
    → is_empty name ≡ false
    → has_field_named name vs ≡ true
    → HasNamed name vs
unfolding has_field_named HasNamed
has_field_named-HasNamed name no_items full h = cc
has_field_named-HasNamed name (item v vs) full h = elim (Option-cases (as_map v)) [
  | inl m ↦
      HasNamed-tail name v vs
        (has_field_named-HasNamed name vs full (simp (has_field_named, m) at h))
  | inr (f, m) ↦ elim (Bool-cases (same (name_of f) name)) [
    | inl e ↦ (f, Memᴰ.head (sym (as_map_eq v f m)), name_of_there f name full e)
    | inr e ↦
        HasNamed-tail name v vs
          (has_field_named-HasNamed name vs full (simp (has_field_named, m, e) at h))
  ]
]

later_true :
    (o : Option Fields) (test : Fields → Bool) (rest : Bool)
    → rest ≡ true
    → elim o [ none ↦ rest | some f ↦ if test f then true else rest ] ≡ true
later_true none test rest h = h
later_true (some f) test rest h = elim (Bool-cases (test f)) [ inl y ↦ rw y refl | inr y ↦ rw y h ]

HasNamed-has_field_named :
    (name : Bytes) (vs : Items) → HasNamed name vs → has_field_named name vs ≡ true
unfolding has_field_named HasNamed name_of
HasNamed-has_field_named name no_items (f, m, e) = elim m [ ]
HasNamed-has_field_named name (item v vs) (f, m, e) = elim (Memᴰ.cases_cons m) [
  | inl k ↦ rw (sym k) (simp (e, same_refl name) refl)
  | inr later ↦
      later_true (as_map v) (λ g. same (name_of g) name) (has_field_named name vs)
        (HasNamed-has_field_named name vs (f, later, e))
]

-- The table's schema has a list of fields with one of the name.
pub HasColumn : Fields → Bytes → Type 0
HasColumn table name =
    (schema : Fields) × (fields : Items) × (find_map (codes "schema") table ≡ some schema)
    × (find_slice (codes "fields") schema ≡ some fields)
    × HasNamed name fields

named_walk :
    (key name : Bytes) (schema : Fields) (fields : Items)
    → find_slice key schema ≡ some fields
    → has_named_field key name (some schema) ≡ has_field_named name fields
unfolding has_named_field
named_walk key name schema fields k = rw (has_named_field, k) refl

named_none :
    (key name : Bytes) (schema : Fields)
    → find_slice key schema ≡ none
    → has_named_field key name (some schema) ≡ false
unfolding has_named_field
named_none key name schema k = rw (has_named_field, k) refl

column_walk :
    (table : Fields) (name : Bytes) (schema : Fields)
    → find_map (codes "schema") table ≡ some schema
    → has_column_impl table name ≡ has_named_field (codes "fields") name (some schema)
unfolding has_column_impl
column_walk table name schema m = ap (has_named_field (codes "fields") name) m

no_schema :
    (table : Fields) (name : Bytes)
    → find_map (codes "schema") table ≡ none
    → has_column_impl table name ≡ false
unfolding has_column_impl has_named_field
no_schema table name m = ap (has_named_field (codes "fields") name) m

-- For a name that is not empty, `has_column` is true exactly if the table has a schema, which has a list
-- of fields, an element of which is a map whose name is that string; all else that the table may hold
-- in these places is as if it were not there.
pub has_column_impl-HasColumn :
    (table : Fields) (name : Bytes)
    → is_empty name ≡ false
    → (has_column_impl table name ≡ true) ↔ HasColumn table name
unfolding HasColumn
has_column_impl-HasColumn table name full = (there, back)
  where
    there : has_column_impl table name ≡ true → HasColumn table name
    there h = elim (Option-cases (find_map (codes "schema") table)) [
      | inl m ↦ cc (no_schema table name m, h)
      | inr (schema, m) ↦ elim (Option-cases (find_slice (codes "fields") schema)) [
        | inl k ↦ cc (column_walk table name schema m, named_none (codes "fields") name schema k, h)
        | inr (fields, k) ↦ (
          schema,
          fields,
          m,
          k,
          has_field_named-HasNamed name fields full (
              sym (named_walk (codes "fields") name schema fields k)
              ∙ sym (column_walk table name schema m)
              ∙ h),
        )
      ]
    ]

    back : HasColumn table name → has_column_impl table name ≡ true
    back (schema, fields, m, k, h) =
        column_walk table name schema m
        ∙ named_walk (codes "fields") name schema fields k
        ∙ HasNamed-has_field_named name fields h
