-- ===== src/Fragment/Predicate.antt =====
-- The well-formed predicates of the grammar of sql_grammar.go, as a property of trees.
use neksur.Prelude.{
  Bool, true, false, List, [], ◌∷◌, ◌++◌, ◌&&◌, ◌≡◌, not, Bytes, codes, equal_fold, all, is_empty,
}
use neksur.Fragment.Ast.{Node, Literal, binary_op, unary_op, column_ref, literal, in_list}
use neksur.Fragment.Lexer.{is_ident_start, is_digit, is_word_char}
use neksur.Fragment.Literal.{string_kind, number_kind, null_kind, is_control}

-- `^[A-Za-z_][A-Za-z0-9_]*$`
abbrev pub is_ident : Bytes → Bool
is_ident [] = false
is_ident (c ∷ s) = is_ident_start c && all is_word_char s

-- A column may not begin with the word NOT, which the parser takes for the operator.
pub data IsColumn : Bytes → Bytes → Type 0 where
  bare :
      {column : Bytes}
      → is_ident column ≡ true
      → equal_fold (codes "NOT") column ≡ false
      → IsColumn [] column
  qualified :
      {table column : Bytes}
      → is_ident table ≡ true
      → equal_fold (codes "NOT") table ≡ false
      → is_ident column ≡ true
      → IsColumn table column

-- `[+-]?` before the digits
pub data IsSign : Bytes → Type 0 where
  no_sign : IsSign []
  plus : IsSign (codes "+")
  minus : IsSign (codes "-")

-- The digits, with or without a point; there is a digit on one side at least.
pub data IsPoint : Bytes → Bytes → Type 0 where
  no_point : {whole : Bytes} → is_empty whole ≡ false → IsPoint whole []
  point :
      {whole digits : Bytes}
      → (is_empty whole && is_empty digits) ≡ false
      → all is_digit digits ≡ true
      → IsPoint whole (codes "." ++ digits)

pub record IsNumber (v : Bytes) : Type 0 where
  pub sign : Bytes
  pub whole : Bytes
  pub rest : Bytes
  pub signed : IsSign sign
  pub digits : all is_digit whole ≡ true
  pub pointed : IsPoint whole rest
  pub parts : v ≡ sign ++ (whole ++ rest)

pub data IsLiteral : Literal → Type 0 where
  a_string :
      {v : Bytes}
      → all (λ c. not (is_control c)) v ≡ true
      → IsLiteral (record { kind = string_kind; value = v })
  a_number : {v : Bytes} → IsNumber v → IsLiteral (record { kind = number_kind; value = v })
  a_null : IsLiteral (record { kind = null_kind; value = codes "NULL" })

pub data IsComparison : Bytes → Type 0 where
  eq : IsComparison (codes "=")
  ne : IsComparison (codes "!=")
  differs : IsComparison (codes "<>")
  le : IsComparison (codes "<=")
  ge : IsComparison (codes ">=")
  lt : IsComparison (codes "<")
  gt : IsComparison (codes ">")
  like : IsComparison (codes "LIKE")

-- The values of an IN list; there is one at least.
pub data AreLiterals : List Literal → Type 0 where
  one : {v : Literal} → IsLiteral v → AreLiterals (v ∷ [])
  more : {v : Literal} {vs : List Literal} → IsLiteral v → AreLiterals vs → AreLiterals (v ∷ vs)

pub data IsPredicate : Node → Type 0 where
  conjunction :
      {l r : Node} → IsPredicate l → IsPredicate r → IsPredicate (binary_op (codes "AND") l r)
  disjunction :
      {l r : Node} → IsPredicate l → IsPredicate r → IsPredicate (binary_op (codes "OR") l r)
  negation : {n : Node} → IsPredicate n → IsPredicate (unary_op (codes "NOT") n)
  comparison :
      {op table column : Bytes} {v : Literal}
      → IsComparison op
      → IsColumn table column
      → IsLiteral v
      → IsPredicate (binary_op op (column_ref table column) (literal v))
  membership :
      {table column : Bytes} {vs : List Literal}
      → IsColumn table column
      → AreLiterals vs
      → IsPredicate (in_list (column_ref table column) vs)
