-- ===== src/Cel/Functions.antt =====
-- The bindings of internal/policy/cel/functions.go. An argument that the signature in CEL makes a map
-- is one here; an argument that it makes a string, a string.
use neksur.Prelude.{
  Bool, true, false, not, ◌&&◌, ◌||◌, Option, none, some, List, [], ◌∷◌, if◌then◌else◌, Bytes,
  codes, same,
}
use neksur.Cel.Value.{
  Fields, no_fields, field, Items, no_items, item, as_string, as_map, find_string, find_map,
  find_slice,
}

abbrev or_empty : Option Bytes → Bytes
or_empty none = []
or_empty (some s) = s

-- `fieldName, _ := field["name"].(string)`: a name that is missing or no string is "".
unfoldable pub name_of : Fields → Bytes
unfolding find_string
name_of fs = or_empty (find_string (codes "name") fs)

-- The loop over `fields`.
unfoldable pub has_field_named : Bytes → Items → Bool
unfolding name_of
has_field_named name no_items = false
has_field_named name (item v vs) =
    let rest = has_field_named name vs in
    elim (as_map v) [ none ↦ rest | some f ↦ if same (name_of f) name then true else rest ]

-- The two levels above it.
unfoldable pub has_named_field : Bytes → Bytes → Option Fields → Bool
unfolding find_slice has_field_named
has_named_field name wanted none = false
has_named_field name wanted (some m) = elim (find_slice name m) [
  | none ↦ false
  | some fs ↦ has_field_named wanted fs
]

unfoldable pub has_column_impl : Fields → Bytes → Bool
unfolding find_map has_named_field
has_column_impl table name = has_named_field (codes "fields") name (find_map (codes "schema") table)

unfoldable pub has_partition_impl : Fields → Bytes → Bool
unfolding find_map has_named_field
has_partition_impl table spec =
    has_named_field (codes "fields") spec (find_map (codes "partition_spec") table)

unfoldable pub has_role : Bytes → Items → Bool
has_role role no_items = false
has_role role (item v vs) =
    let rest = has_role role vs in if same (or_empty (as_string v)) role then true else rest

unfoldable pub principal_role_impl : Fields → Bytes → Bool
unfolding find_slice has_role
principal_role_impl principal role = elim (find_slice (codes "roles") principal) [
  | none ↦ false
  | some roles ↦ has_role role roles
]

unfoldable pub location_region_impl : Fields → Bytes
unfolding find_string
location_region_impl commit = or_empty (find_string (codes "location_region") commit)

-- `tagsByCol`, as the list of its pairs: an entry that is no map, or has no such strings, is skipped.
unfoldable pub tags_by_col : Items → List (Bytes × Bytes)
unfolding find_string
tags_by_col no_items = []
tags_by_col (item v vs) =
    let rest = tags_by_col vs in
    elim (as_map v) [
      | none ↦ rest
      | some entry ↦ elim (find_string (codes "column_name") entry) [
        | none ↦ rest
        | some col ↦ elim (find_string (codes "tag") entry) [
          | none ↦ rest
          | some tag ↦ (col, tag) ∷ rest
        ]
      ]
    ]

unfoldable pub has_tag : Bytes → Bytes → List (Bytes × Bytes) → Bool
has_tag col tag [] = false
has_tag col tag ((c, t) ∷ rest) = (same c col && same t tag) || has_tag col tag rest

-- The walk over the columns.
unfoldable pub all_tagged : (Bytes → Bool) → Bytes → List (Bytes × Bytes) → Items → Bool
unfolding find_string has_tag
all_tagged matches tag tags no_items = true
all_tagged matches tag tags (item v vs) =
    let rest = all_tagged matches tag tags vs in
    elim (as_map v) [
      | none ↦ rest
      | some entry ↦ elim (find_string (codes "name") entry) [
        | none ↦ rest
        | some name ↦
            if not (matches name) then rest else if not (has_tag name tag tags) then false else rest
      ]
    ]

-- `compile` is `regexp.Compile`, with `MatchString` of what it gives.
unfoldable pub classification_satisfied_impl :
    (Bytes → Option (Bytes → Bool)) → Fields → Bytes → Bytes → Bool
unfolding find_slice tags_by_col all_tagged
classification_satisfied_impl compile table pattern tag = elim (compile pattern) [
  | none ↦ false
  | some matches ↦ elim (find_slice (codes "classifications") table) [
    | none ↦ false
    | some entries ↦ elim (find_slice (codes "columns") table) [
      | none ↦ false
      | some columns ↦ all_tagged matches tag (tags_by_col entries) columns
    ]
  ]
]

-- The entries of a map that are strings.
unfoldable pub string_entries : Fields → List (Bytes × Bytes)
string_entries no_fields = []
string_entries (field k v fs) =
    let rest = string_entries fs in elim (as_string v) [ none ↦ rest | some s ↦ (k, s) ∷ rest ]

unfoldable pub partition_spec_impl : Fields → List (Bytes × Bytes)
unfolding find_map string_entries
partition_spec_impl table = elim (find_map (codes "partition_spec") table) [
  | none ↦ []
  | some spec ↦ string_entries spec
]

unfoldable pub principal_attribute_layer1 : Fields → Bytes → Bytes
unfolding find_map find_string
principal_attribute_layer1 principal name = elim (find_map (codes "claims") principal) [
  | none ↦ []
  | some claims ↦ or_empty (find_string name claims)
]
