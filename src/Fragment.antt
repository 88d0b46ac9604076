-- ===== src/Fragment.antt =====
-- internal/policy/compiler/sql_grammar.go: the policy fragment grammar.
pub mod Ast
pub mod Lexer
pub mod Literal
pub mod Parser
pub mod Mask
pub mod Predicate
pub mod Shrink
pub mod Sound
