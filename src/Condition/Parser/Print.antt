-- ===== src/Condition/Parser/Print.antt =====
-- Expressions printed as tokens, and those that `parse` gives.
use rbpmn.Common.{◌≡◌, refl, Bool, true, false, not, ◌&&◌, [], ◌∷◌, ◌++◌, append-nil}
use mathlib.Core.Path.{subst}
use rbpmn.Condition.{Expr, cmp, conj, disj, Exprs, nil, cons}
use rbpmn.Condition.Tokens.{Tok, lparen, rparen, and, or, op, name, lit, Tokens, ok}
use rbpmn.Condition.Parser.{is_ordering, is_num, conj_of, disj_of, parse_tokens}
use rbpmn.Condition.Parser.Grammar.{Disjunction, Alternatives, Conjunction, Conjuncts, Atom}
use rbpmn.Condition.Parser.Complete.{Disjunction-parse_tokens, parse_tokens_iff}

abbrev several : Exprs → Bool
several (cons _ (cons _ _)) = true
several _ = false

-- An order compares with a number, and a connective has two parts or more.
abbrev mutual
  pub IsWell : Expr → Type 0
  IsWell (cmp path p value) = is_ordering p && not (is_num value) ≡ false
  IsWell (conj es) = (several es ≡ true) × AreWell es
  IsWell (disj es) = (several es ≡ true) × AreWell es

  pub AreWell : Exprs → Type 0
  AreWell nil = Unit {0}
  AreWell (cons e es) = IsWell e × AreWell es

conj_of-IsWell : (e : Expr) (es : Exprs) → IsWell e → AreWell es → IsWell (conj_of e es)
conj_of-IsWell e nil w ws = w
conj_of-IsWell e (cons x es) w ws = (refl, (w, ws))

disj_of-IsWell : (e : Expr) (es : Exprs) → IsWell e → AreWell es → IsWell (disj_of e es)
disj_of-IsWell e nil w ws = w
disj_of-IsWell e (cons x es) w ws = (refl, (w, ws))

mutual
  pub Disjunction-IsWell : (ts : Tokens) (e : Expr) → Disjunction ts e → IsWell e
  Disjunction-IsWell _ _ (Disjunction.alternatives {ts} {us} {e} {es} d m) =
      disj_of-IsWell e es (Conjunction-IsWell ts e d) (Alternatives-AreWell us es m)

  Alternatives-AreWell : (ts : Tokens) (es : Exprs) → Alternatives ts es → AreWell es
  Alternatives-AreWell _ _ Alternatives.no_alternative = tt
  Alternatives-AreWell _ _ (Alternatives.alternative {ts} {us} {e} {es} o d m) =
      (Conjunction-IsWell ts e d, Alternatives-AreWell us es m)

  Conjunction-IsWell : (ts : Tokens) (e : Expr) → Conjunction ts e → IsWell e
  Conjunction-IsWell _ _ (Conjunction.conjuncts {ts} {us} {e} {es} d m) =
      conj_of-IsWell e es (Atom-IsWell ts e d) (Conjuncts-AreWell us es m)

  Conjuncts-AreWell : (ts : Tokens) (es : Exprs) → Conjuncts ts es → AreWell es
  Conjuncts-AreWell _ _ Conjuncts.no_conjunct = tt
  Conjuncts-AreWell _ _ (Conjuncts.conjunct {ts} {us} {e} {es} o d m) =
      (Atom-IsWell ts e d, Conjuncts-AreWell us es m)

  Atom-IsWell : (ts : Tokens) (e : Expr) → Atom ts e → IsWell e
  Atom-IsWell _ _ (Atom.group {ts} {e} o p d) = Disjunction-IsWell ts e d
  Atom-IsWell _ _ (Atom.comparison a b c path p value k) = k

-- An expression that parses orders against number literals alone, and its connectives have two
-- parts or more.
pub parse_tokens-IsWell : (ts : Tokens) (e : Expr) → parse_tokens ts ≡ ok e → IsWell e
parse_tokens-IsWell ts e h = Disjunction-IsWell ts e ((parse_tokens_iff ts e).0 h)

-- A part of a connective, in parentheses unless it is a comparison.
abbrev wrapped : Expr → Tokens → Tokens
wrapped (cmp _ _ _) ts = ts
wrapped _ ts = (0, lparen) ∷ (ts ++ (0, rparen) ∷ [])

-- The tokens of an expression, all at offset 0.
unfoldable mutual
  pub emit : Expr → Tokens
  emit (cmp path p value) = (0, name path) ∷ (0, op p) ∷ (0, lit value) ∷ []
  emit (conj nil) = []
  emit (conj (cons e es)) = wrapped e (emit e) ++ emit_more and es
  emit (disj nil) = []
  emit (disj (cons e es)) = wrapped e (emit e) ++ emit_more or es

  pub emit_more : Tok → Exprs → Tokens
  emit_more t nil = []
  emit_more t (cons e es) = (0, t) ∷ (wrapped e (emit e) ++ emit_more t es)

Atom-Conjunction : (ts : Tokens) (e : Expr) → Atom ts e → Conjunction ts e
Atom-Conjunction ts e d =
    subst (λ t. Conjunction t e) (append-nil ts) (Conjunction.conjuncts d Conjuncts.no_conjunct)

Conjunction-Disjunction : (ts : Tokens) (e : Expr) → Conjunction ts e → Disjunction ts e
Conjunction-Disjunction ts e d =
    subst (λ t. Disjunction t e) (append-nil ts)
      (Disjunction.alternatives d Alternatives.no_alternative)

wrapped-Atom : (e : Expr) → IsWell e → Disjunction (emit e) e → Atom (wrapped e (emit e)) e
unfolding emit
wrapped-Atom (cmp path p value) w d = Atom.comparison 0 0 0 path p value w
wrapped-Atom (conj es) w d = Atom.group 0 0 d
wrapped-Atom (disj es) w d = Atom.group 0 0 d

mutual
  unfolding emit emit_more

  emit-Disjunction : (e : Expr) → IsWell e → Disjunction (emit e) e
  emit-Disjunction (cmp path p value) w =
      Conjunction-Disjunction _ _ (Atom-Conjunction _ _ (Atom.comparison 0 0 0 path p value w))
  emit-Disjunction (conj (cons e (cons x es))) (_, (w, ws)) = Conjunction-Disjunction _ _ (
      Conjunction.conjuncts (wrapped-Atom e w (emit-Disjunction e w))
        (emit_more-Conjuncts (cons x es) ws))
  emit-Disjunction (conj (cons e nil)) (s, _) = cc
  emit-Disjunction (conj nil) (s, _) = cc
  emit-Disjunction (disj (cons e (cons x es))) (_, (w, ws)) =
      Disjunction.alternatives (Atom-Conjunction _ _ (wrapped-Atom e w (emit-Disjunction e w)))
        (emit_more-Alternatives (cons x es) ws)
  emit-Disjunction (disj (cons e nil)) (s, _) = cc
  emit-Disjunction (disj nil) (s, _) = cc

  emit_more-Conjuncts : (es : Exprs) → AreWell es → Conjuncts (emit_more and es) es
  emit_more-Conjuncts nil ws = Conjuncts.no_conjunct
  emit_more-Conjuncts (cons e es) (w, ws) =
      Conjuncts.conjunct 0 (wrapped-Atom e w (emit-Disjunction e w)) (emit_more-Conjuncts es ws)

  emit_more-Alternatives : (es : Exprs) → AreWell es → Alternatives (emit_more or es) es
  emit_more-Alternatives nil ws = Alternatives.no_alternative
  emit_more-Alternatives (cons e es) (w, ws) =
      Alternatives.alternative 0 (Atom-Conjunction _ _ (wrapped-Atom e w (emit-Disjunction e w)))
        (emit_more-Alternatives es ws)

-- The tokens that an expression prints as parse back to it, if it orders against number literals
-- alone and its connectives have two parts or more.
pub parse_tokens-emit : (e : Expr) → IsWell e → parse_tokens (emit e) ≡ ok e
parse_tokens-emit e w = Disjunction-parse_tokens (emit e) e (emit-Disjunction e w)
