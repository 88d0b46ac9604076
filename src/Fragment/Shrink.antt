-- ===== src/Fragment/Shrink.antt =====
-- How much the lexer of sql_grammar.go reads, and postconditions of its parsers.
use neksur.Prelude.{
  ◌+◌, ◌≤◌, [], ◌∷◌, arith, if◌then◌else◌, Bytes, length, strip_prefix-Leaves, strip_fold-Leaves,
}
use neksur.Fragment.Lexer.{skip_space, consume, expect_keyword}

pub length-skip_space : (s : Bytes) → length (skip_space s) ≤ length s
unfolding skip_space
length-skip_space [] = omega arith
length-skip_space (c ∷ s) = ground (arith, length-skip_space s)

-- What a token leaves: no more than there was, and less by the token if it was there.
pub length-consume :
    (lit s : Bytes)
    → length (consume lit s).1 + (if (consume lit s).0 then length lit else 0) ≤ length s
unfolding consume
length-consume lit s = ground (arith, length-skip_space s, strip_prefix-Leaves lit (skip_space s))

pub length-expect_keyword :
    (kw s : Bytes)
    → length (expect_keyword kw s).1 + (if (expect_keyword kw s).0 then length kw else 0) ≤ length s
unfolding expect_keyword
length-expect_keyword kw s =
    ground (arith, length-skip_space s, strip_fold-Leaves kw (skip_space s))
