-- ===== src/Cel/Value.antt =====
-- The values that internal/policy/cel hands to cel-go: Go's `any`, made of what JSON has. cel-go wraps
-- a `map[string]any` as a `traits.Mapper`, an `[]any` as a `traits.Lister`, and `Value()` gives back
-- what was wrapped. A number is a whole one.
use neksur.Prelude.{ℕ, Bool, Option, none, some, if◌then◌else◌, Bytes, same}

pub data ℤ : Type 0 where
  pos : ℕ → ℤ
  negsuc : ℕ → ℤ

mutual
  pub data Any : Type 0 where
    any_string : Bytes → Any
    any_bool : Bool → Any
    any_number : ℤ → Any
    any_nil : Any
    any_map : Fields → Any
    any_slice : Items → Any

  -- The entries of a map.
  pub data Fields : Type 0 where
    no_fields : Fields
    field : Bytes → Any → Fields → Fields

  -- The elements of a slice.
  pub data Items : Type 0 where
    no_items : Items
    item : Any → Items → Items

-- `m[key]`, `Find`
unfoldable pub find : Bytes → Fields → Option Any
find key no_fields = none
find key (field k v fs) = if same key k then some v else find key fs

-- `v.(string)` of a looked-up value, with its `ok`.
abbrev pub as_string : Any → Option Bytes
as_string (any_string s) = some s
as_string _ = none

abbrev pub as_map : Any → Option Fields
as_map (any_map fs) = some fs
as_map _ = none

abbrev pub as_slice : Any → Option Items
as_slice (any_slice vs) = some vs
as_slice _ = none

abbrev pub bind_option {ℓ κ} : {A : Type ℓ} {B : Type κ} → Option A → (A → Option B) → Option B
bind_option none f = none
bind_option (some a) f = f a

unfoldable pub find_string : Bytes → Fields → Option Bytes
unfolding find
find_string key fs = bind_option (find key fs) as_string

unfoldable pub find_map : Bytes → Fields → Option Fields
unfolding find
find_map key fs = bind_option (find key fs) as_map

unfoldable pub find_slice : Bytes → Fields → Option Items
unfolding find
find_slice key fs = bind_option (find key fs) as_slice
