-- ===== src/Condition/Logic.antt =====
-- The logic of conditions: `all` and `any` over three truth values, missing values, and comparisons
-- that negate each other.
use mathlib.Core.Path.{subst}
use rbpmn.Common.{
  ◌≡◌, refl, Bool, true, false, ◌||◌, none, some, String, List, arith, if◌then◌else◌,
}
use rbpmn.Json.{Value}
use rbpmn.Json.Paths.{resolve}
use rbpmn.Condition.{
  CmpOp, op_eq, op_ne, op_lt, op_le, op_gt, op_ge, Literal, num, cmp, conj, disj, Exprs, nil, cons,
  Truth, negate, ordered, ordering, equality, compare, and_step, or_step, truth, and_loop, or_loop,
  or_false, eval,
}

-- Whether some part has this truth value.
abbrev is_truth : Truth → Truth → Bool
is_truth none none = true
is_truth (some true) (some true) = true
is_truth (some false) (some false) = true
is_truth _ _ = false

unfoldable some_part : Truth → Exprs → Value → Bool
some_part t nil v = false
some_part t (cons e es) v = is_truth t (truth e v) || some_part t es v

-- Kleene's conjunction and disjunction, read off the truth values that occur.
unfoldable pub conjunction : Exprs → Value → Truth
unfolding some_part
conjunction es v =
    if some_part (some false) es v
    then some false
    else if some_part none es v
    then none
    else some true

unfoldable pub disjunction : Exprs → Value → Truth
unfolding some_part
disjunction es v =
    if some_part (some true) es v
    then some true
    else if some_part none es v
    then none
    else some false

and_loop-unknown :
    (es : Exprs) (v : Value)
    → and_loop es none v ≡ (if some_part (some false) es v then some false else none)
unfolding and_loop and_step some_part
and_loop-unknown nil v = refl
and_loop-unknown (cons e es) v = ground (arith, and_loop-unknown es v)

and_loop-known : (es : Exprs) (v : Value) → and_loop es (some true) v ≡ conjunction es v
unfolding and_loop and_step some_part conjunction
and_loop-known nil v = refl
and_loop-known (cons e es) v = ground (arith, and_loop-unknown es v, and_loop-known es v)

or_loop-unknown :
    (es : Exprs) (v : Value)
    → or_loop es none v ≡ (if some_part (some true) es v then some true else none)
unfolding or_loop or_step some_part
or_loop-unknown nil v = refl
or_loop-unknown (cons e es) v = ground (arith, or_loop-unknown es v)

or_loop-known : (es : Exprs) (v : Value) → or_loop es (some false) v ≡ disjunction es v
unfolding or_loop or_step some_part disjunction
or_loop-known nil v = refl
or_loop-known (cons e es) v = ground (arith, or_loop-unknown es v, or_loop-known es v)

-- The loops that stop at the first deciding part compute Kleene's connectives: a conjunction is
-- false if some part is, else unknown if some part is, else true; a disjunction is true if some part
-- is, else unknown if some part is, else false.
pub truth-kleene :
    (es : Exprs) (v : Value)
    → (truth (conj es) v ≡ conjunction es v) × (truth (disj es) v ≡ disjunction es v)
unfolding truth
truth-kleene es v = (and_loop-known es v, or_loop-known es v)

compare-null :
    (op : CmpOp) (literal : Literal)
    → or_false (compare Value.null op literal) ≡ true
    → (op ≡ op_eq) × (literal ≡ Literal.null)
unfolding compare equality ordering
compare-null op_eq Literal.null h = (refl, refl)
compare-null op_eq (Literal.bool b) h = cc
compare-null op_eq (num n) h = cc
compare-null op_eq (Literal.str t) h = cc
compare-null op_ne Literal.null h = cc
compare-null op_ne (Literal.bool b) h = cc
compare-null op_ne (num n) h = cc
compare-null op_ne (Literal.str t) h = cc
compare-null op_lt literal h = cc
compare-null op_le literal h = cc
compare-null op_gt literal h = cc
compare-null op_ge literal h = cc

-- On a missing or null value only the comparison `= null` holds; `!=` does not.
pub eval-missing :
    (path : List String) (op : CmpOp) (literal : Literal) (v : Value)
    → resolve v path ≡ Value.null
    → eval (cmp path op literal) v ≡ true
    → (op ≡ op_eq) × (literal ≡ Literal.null)
unfolding eval truth
eval-missing path op literal v h k =
    compare-null op literal (subst (λ x. or_false (compare x op literal) ≡ true) h k)

-- `!=`, `>=` and `>` are the negations of `=`, `<` and `<=`, unknown where those are.
pub compare-negate :
    (a : Value) (l : Literal)
    → (compare a op_ne l ≡ negate (compare a op_eq l))
      × (compare a op_ge l ≡ negate (compare a op_lt l))
      × (compare a op_gt l ≡ negate (compare a op_le l))
unfolding compare ordering ordered
compare-negate a l = (refl, ground arith, ground arith)
