-- ===== src/Condition.antt =====
-- condition.rs: the conditions of sequence flows and their evaluation in FEEL's three-valued logic.
pub mod Decimals
pub mod Logic
pub mod Tokens
pub mod Lexer
pub mod Parser
pub mod Qname
use Prim.Native.Nat.{Ordering}
use rbpmn.Common.{
  ℕ, String, Bool, true, false, not, Option, none, some, List, same_text, if◌then◌else◌,
}
use rbpmn.Json.{Value, number, string}
use rbpmn.Json.Paths.{resolve}
use Decimals.{compare_decimals}

pub data CmpOp : Type 0 where
  op_eq op_ne op_lt op_le op_gt op_ge : CmpOp

pub data Literal : Type 0 where
  null : Literal
  bool : Bool → Literal
  num : String → Literal
  str : String → Literal

mutual
  pub data Expr : Type 0 where
    cmp : List String → CmpOp → Literal → Expr
    conj : Exprs → Expr
    disj : Exprs → Expr

  pub data Exprs : Type 0 where
    nil : Exprs
    cons : Expr → Exprs → Exprs

-- `none` is FEEL's null.
abbrev pub Truth : Type 0
Truth = Option Bool

unfoldable same_bool : Bool → Bool → Bool
same_bool true b = b
same_bool false b = not b

unfoldable is_equal : Option Ordering → Bool
is_equal (some Ordering.eq) = true
is_equal _ = false

-- Equality: the null check against the `null` literal, null on a mismatch of types.
unfoldable equality : Value → Literal → Truth
unfolding same_bool is_equal compare_decimals
equality Value.null Literal.null = some true
equality _ Literal.null = some false
equality Value.null _ = none
equality (Value.bool a) (Literal.bool b) = some (same_bool a b)
equality (number a) (num b) = some (is_equal (compare_decimals a b))
equality (string a) (str b) = some (same_text a b)
equality _ _ = none

abbrev pub negate : Truth → Truth
negate none = none
negate (some b) = some (not b)

-- The four orders over an ordering of two numbers.
abbrev pub decide_order : CmpOp → Ordering → Bool
decide_order op_lt Ordering.lt = true
decide_order op_lt _ = false
decide_order op_le Ordering.gt = false
decide_order op_le _ = true
decide_order op_gt Ordering.gt = true
decide_order op_gt _ = false
decide_order op_ge Ordering.lt = false
decide_order op_ge _ = true
decide_order _ _ = false

unfoldable ordered : CmpOp → Option Ordering → Truth
ordered op none = none
ordered op (some o) = some (decide_order op o)

unfoldable ordering : CmpOp → Value → Literal → Truth
unfolding ordered compare_decimals
ordering op (number a) (num b) = ordered op (compare_decimals a b)
ordering op _ _ = none

unfoldable pub compare : Value → CmpOp → Literal → Truth
unfolding equality ordering
compare actual op_eq literal = equality actual literal
compare actual op_ne literal = negate (equality actual literal)
compare actual op literal = ordering op actual literal

-- One round of the loop of `and`: the verdict so far and the next part's.
unfoldable pub and_step : Truth → Truth → Truth
and_step (some false) x = some false
and_step r (some false) = some false
and_step (some true) x = x
and_step none x = none

unfoldable pub or_step : Truth → Truth → Truth
or_step (some true) x = some true
or_step r (some true) = some true
or_step (some false) x = x
or_step none x = none

unfoldable mutual
  unfolding compare resolve and_step or_step

  pub truth : Expr → Value → Truth
  truth (cmp path op value) variables = compare (resolve variables path) op value
  truth (conj parts) variables = and_loop parts (some true) variables
  truth (disj parts) variables = or_loop parts (some false) variables

  -- `return Some(false)` ends the loop; so the rest is read only past another verdict.
  pub and_loop : Exprs → Truth → Value → Truth
  and_loop nil result variables = result
  and_loop (cons part rest) result variables = elim (and_step result (truth part variables)) [
    | none ↦ and_loop rest none variables
    | some b ↦ if b then and_loop rest (some true) variables else some false
  ]

  pub or_loop : Exprs → Truth → Value → Truth
  or_loop nil result variables = result
  or_loop (cons part rest) result variables = elim (or_step result (truth part variables)) [
    | none ↦ or_loop rest none variables
    | some b ↦ if b then some true else or_loop rest (some false) variables
  ]

abbrev pub or_false : Truth → Bool
or_false none = false
or_false (some b) = b

unfoldable pub eval : Expr → Value → Bool
unfolding truth
eval expr variables = or_false (truth expr variables)
