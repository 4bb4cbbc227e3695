-- ===== src/Condition/Parser.antt =====
-- `parse`: recursive descent over the tokens of a condition. The position in the tokens is the list
-- of those left; `last` is the offset of the last token of all, where an unexpected end is reported.
-- Each call costs a unit of fuel, as what a call leaves is no structural part of its tokens.
pub mod Grammar
pub mod Sound
pub mod Complete
pub mod Print
pub mod Whole
use rbpmn.Common.{
  ℕ, zero, suc, ◌+◌, ◌*◌, String, Bool, true, false, not, ◌&&◌, List, [], ◌∷◌, if◌then◌else◌,
  length, size,
}
use rbpmn.Condition.{CmpOp, op_eq, op_ne, Literal, num, Expr, cmp, conj, disj, Exprs, nil, cons}
use rbpmn.Condition.Tokens.{
  Tok, lparen, rparen, and, or, op, name, lit, Tokens, condition_empty, trailing_input,
  end_of_input, unclosed, function_call, operator_expected, literal_expected, number_required,
  atom_expected, Parsed, ok, err, out_of_fuel, ◌>>=◌,
}
use rbpmn.Condition.Lexer.{lex}

abbrev pub is_ordering : CmpOp → Bool
is_ordering op_eq = false
is_ordering op_ne = false
is_ordering _ = true

abbrev pub is_num : Literal → Bool
is_num (num _) = true
is_num _ = false

abbrev pub last_offset : Tokens → ℕ
last_offset [] = 0
last_offset ((o, _) ∷ []) = o
last_offset (_ ∷ t ∷ ts) = last_offset (t ∷ ts)

-- The one part alone, or the parts under a connective.
abbrev pub conj_of : Expr → Exprs → Expr
conj_of e nil = e
conj_of e (cons x es) = conj (cons e (cons x es))

abbrev pub disj_of : Expr → Exprs → Expr
disj_of e nil = e
disj_of e (cons x es) = disj (cons e (cons x es))

-- What follows a parenthesised expression that began at `o`.
unfoldable pub close : ℕ → Expr → Tokens → Parsed (Expr × Tokens)
close o e ((_, rparen) ∷ ts) = ok (e, ts)
close o e _ = err o unclosed

-- The literal after the operator at `o`.
unfoldable pub compared : ℕ → List String → CmpOp → Tokens → Parsed (Expr × Tokens)
compared o path p ((at, lit value) ∷ ts) =
    if is_ordering p && not (is_num value)
    then err at number_required
    else ok (cmp path p value, ts)
compared o path p _ = err o literal_expected

-- What follows the name at `o`.
unfoldable pub comparison : ℕ → List String → Tokens → Parsed (Expr × Tokens)
comparison o path ((paren, lparen) ∷ ts) = err paren function_call
comparison o path ((at, op p) ∷ ts) = compared at path p ts
comparison o path _ = err o operator_expected

module _ (last : ℕ) where
  unfoldable mutual
    unfolding close comparison

    pub or_expr : ℕ → Tokens → Parsed (Expr × Tokens)
    or_expr zero ts = out_of_fuel
    or_expr (suc f) ts = do
      (e, rest) ← and_expr f ts
      (es, rest') ← or_more f rest
      ok (disj_of e es, rest')

    -- The rounds of the loop.
    pub or_more : ℕ → Tokens → Parsed (Exprs × Tokens)
    or_more zero ts = out_of_fuel
    or_more (suc f) ((_, or) ∷ ts) = do
      (e, rest) ← and_expr f ts
      (es, rest') ← or_more f rest
      ok (cons e es, rest')
    or_more (suc f) ts = ok (nil, ts)

    pub and_expr : ℕ → Tokens → Parsed (Expr × Tokens)
    and_expr zero ts = out_of_fuel
    and_expr (suc f) ts = do
      (e, rest) ← atom f ts
      (es, rest') ← and_more f rest
      ok (conj_of e es, rest')

    pub and_more : ℕ → Tokens → Parsed (Exprs × Tokens)
    and_more zero ts = out_of_fuel
    and_more (suc f) ((_, and) ∷ ts) = do
      (e, rest) ← atom f ts
      (es, rest') ← and_more f rest
      ok (cons e es, rest')
    and_more (suc f) ts = ok (nil, ts)

    pub atom : ℕ → Tokens → Parsed (Expr × Tokens)
    atom zero ts = out_of_fuel
    atom (suc f) [] = err last end_of_input
    atom (suc f) ((o, lparen) ∷ ts) = or_expr f ts >>= λ (e, rest). close o e rest
    atom (suc f) ((o, name path) ∷ ts) = comparison o path ts
    atom (suc f) ((o, _) ∷ ts) = err o atom_expected

unfoldable pub finish : Expr → Tokens → Parsed Expr
finish e [] = ok e
finish e ((o, _) ∷ _) = err o trailing_input

unfoldable pub parse_tokens : Tokens → Parsed Expr
unfolding finish
parse_tokens [] = err 0 condition_empty
parse_tokens (t ∷ ts) =
    or_expr (last_offset (t ∷ ts)) (3 * length (t ∷ ts) + 3) (t ∷ ts) >>= λ (e, rest). finish e rest

unfoldable pub parse : String → Parsed Expr
unfolding lex parse_tokens
parse src = lex (size src) 0 src >>= parse_tokens
