-- ===== src/Cel/Attribute.antt =====
-- The decorated call of `principal.attribute` in internal/policy/cel/functions.go. The resolver of the
-- inputs is an argument, `none` if there is none.
use neksur.Prelude.{Option, none, some, List, [], ◌∷◌, if◌then◌else◌, Bytes, codes, is_empty}
use neksur.Cel.Value.{Fields, no_fields, field, as_string, find_map, find_string}
use neksur.Cel.Functions.{principal_attribute_layer1}

-- `Resolve`: from the subject, the name and the claims.
abbrev pub Resolver : Type 0
Resolver = Bytes → Bytes → List (Bytes × Bytes) → Bytes

unfoldable pub principal_sub_from_map : Fields → Bytes
unfolding find_string
principal_sub_from_map principal = elim (find_string (codes "sub") principal) [
  | none ↦ []
  | some s ↦ s
]

-- The claims that are texts, and not empty.
unfoldable pub text_claims : Fields → List (Bytes × Bytes)
text_claims no_fields = []
text_claims (field k v fs) =
    let rest = text_claims fs in
    elim (as_string v) [ none ↦ rest | some s ↦ if is_empty s then rest else (k, s) ∷ rest ]

unfoldable pub oidc_claims_from_principal : Fields → List (Bytes × Bytes)
unfolding find_map text_claims
oidc_claims_from_principal principal = elim (find_map (codes "claims") principal) [
  | none ↦ []
  | some claims ↦ text_claims claims
]

unfoldable pub principal_attribute_eval : Option Resolver → Fields → Bytes → Bytes
unfolding principal_attribute_layer1 principal_sub_from_map oidc_claims_from_principal
principal_attribute_eval none principal name = principal_attribute_layer1 principal name
principal_attribute_eval (some resolve) principal name =
    resolve (principal_sub_from_map principal) name (oidc_claims_from_principal principal)
