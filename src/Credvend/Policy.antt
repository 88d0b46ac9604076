-- ===== src/Credvend/Policy.antt =====
-- internal/credvend/sessionpolicy/sessionpolicy.go. The JSON text is `encoding/json`'s; the document
-- that it is made of is what is modelled.
use neksur.Prelude.{
  Option, none, some, List, [], ◌∷◌, ◌++◌, if◌then◌else◌, ◌==◌, Bytes, codes, is_empty, join,
  strip_prefix,
}
use neksur.Iceberg.Catalog.{TableRef}

-- `Doc` and its `Statement`, with the fixed texts left out: the version, the effect, and the names of
-- the condition's operator and key.
pub record Statement : Type 0 where
  pub action : Bytes
  pub resource : List Bytes
  pub requested_region : Bytes

-- `after[:strings.Index(after, "/")]`
unfoldable pub before_slash : Bytes → Option Bytes
before_slash [] = none
before_slash (c ∷ s) =
    let rest = before_slash s in
    if c == b'/' then some [] else elim rest [ none ↦ none | some b ↦ some (c ∷ b) ]

unfoldable pub extract_bucket_from_warehouse : Bytes → Option Bytes
unfolding before_slash strip_prefix
extract_bucket_from_warehouse warehouse = elim (strip_prefix (codes "s3://") warehouse) [
  | none ↦ none
  | some after ↦ elim (before_slash after) [
    | none ↦ none
    | some bucket ↦ if is_empty bucket then none else some bucket
  ]
]

unfoldable pub table_s3_prefix_from_ref : TableRef → Bytes
unfolding join
table_s3_prefix_from_ref ref = join (codes "/") (ref.namespace ++ (ref.name ∷ []))

unfoldable pub resource_of : Bytes → TableRef → Bytes
unfolding table_s3_prefix_from_ref
resource_of bucket table =
    codes "arn:aws:s3:::"
    ++ (bucket ++ (codes "/" ++ (table_s3_prefix_from_ref table ++ codes "/*")))

-- `Build`; `none` is `ErrMalformed`.
unfoldable pub build : TableRef → Bytes → Bytes → Option Statement
unfolding extract_bucket_from_warehouse resource_of
build table region warehouse = elim (extract_bucket_from_warehouse warehouse) [
  | none ↦ none
  | some bucket ↦ some (record {
    action = codes "s3:PutObject";
    resource = resource_of bucket table ∷ [];
    requested_region = region;
  })
]
