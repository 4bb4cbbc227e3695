-- ===== src/Condition/Parser/Grammar.antt =====
-- The grammar of conditions, as derivations of an expression from the tokens it is read from. A
-- connective binds its parts in one list, so that each list of tokens has one expression.
use rbpmn.Common.{ℕ, ◌≡◌, String, not, ◌&&◌, false, List, [], ◌∷◌, ◌++◌}
use rbpmn.Condition.{CmpOp, Literal, Expr, cmp, Exprs, nil, cons}
use rbpmn.Condition.Tokens.{lparen, rparen, and, or, op, name, lit, Tokens}
use rbpmn.Condition.Parser.{is_ordering, is_num, conj_of, disj_of}

mutual
  pub data Disjunction : Tokens → Expr → Type 0 where
    alternatives :
        {ts us : Tokens} {e : Expr} {es : Exprs}
        → Conjunction ts e
        → Alternatives us es
        → Disjunction (ts ++ us) (disj_of e es)

  pub data Alternatives : Tokens → Exprs → Type 0 where
    no_alternative : Alternatives [] nil
    alternative :
        {ts us : Tokens} {e : Expr} {es : Exprs} (o : ℕ)
        → Conjunction ts e
        → Alternatives us es
        → Alternatives ((o, or) ∷ (ts ++ us)) (cons e es)

  pub data Conjunction : Tokens → Expr → Type 0 where
    conjuncts :
        {ts us : Tokens} {e : Expr} {es : Exprs}
        → Atom ts e
        → Conjuncts us es
        → Conjunction (ts ++ us) (conj_of e es)

  pub data Conjuncts : Tokens → Exprs → Type 0 where
    no_conjunct : Conjuncts [] nil
    conjunct :
        {ts us : Tokens} {e : Expr} {es : Exprs} (o : ℕ)
        → Atom ts e
        → Conjuncts us es
        → Conjuncts ((o, and) ∷ (ts ++ us)) (cons e es)

  pub data Atom : Tokens → Expr → Type 0 where
    group :
        {ts : Tokens} {e : Expr} (o p : ℕ)
        → Disjunction ts e
        → Atom ((o, lparen) ∷ (ts ++ (p, rparen) ∷ [])) e
    comparison :
        (a b c : ℕ) (path : List String) (p : CmpOp) (value : Literal)
        → is_ordering p && not (is_num value) ≡ false
        → Atom ((a, name path) ∷ (b, op p) ∷ (c, lit value) ∷ []) (cmp path p value)
