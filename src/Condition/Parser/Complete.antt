-- ===== src/Condition/Parser/Complete.antt =====
-- Every derivation of the grammar parses.
use rbpmn.Common.{
  ℕ, zero, suc, ◌+◌, ◌*◌, ◌≤◌, ◌≡◌, ◌↔◌, refl, Bool, true, false, [], ◌∷◌, ◌++◌, arith, length,
  length-append, append_assoc, append-nil,
}
use rbpmn.Condition.{Expr, Exprs, nil}
use rbpmn.Condition.Tokens.{rparen, and, or, Tokens, ok, Ensures-ok}
use rbpmn.Condition.Parser.{
  close, compared, comparison, or_expr, or_more, and_expr, and_more, atom, finish, last_offset,
  parse_tokens,
}
use rbpmn.Condition.Parser.Grammar.{Disjunction, Alternatives, Conjunction, Conjuncts, Atom}
use rbpmn.Condition.Parser.Sound.{parse_tokens-Disjunction}

-- The tokens after a list of parts go on with no connective of it: no `and`, and for the alternatives
-- no `or` either.
abbrev pub no_and : Tokens → Bool
no_and ((_, and) ∷ _) = false
no_and _ = true

abbrev pub no_connective : Tokens → Bool
no_connective ((_, and) ∷ _) = false
no_connective ((_, or) ∷ _) = false
no_connective _ = true

no_connective-no_and : (rest : Tokens) → no_connective rest ≡ true → no_and rest ≡ true
no_connective-no_and rest h = ground arith

-- The alternatives that follow a conjunction begin with `or`, or what follows them follows.
Alternatives-no_and :
    (us : Tokens) (es : Exprs) (rest : Tokens)
    → Alternatives us es
    → no_connective rest ≡ true
    → no_and (us ++ rest) ≡ true
Alternatives-no_and _ _ rest Alternatives.no_alternative n = no_connective-no_and rest n
Alternatives-no_and _ _ rest (Alternatives.alternative o d m) n = refl

module _ (last : ℕ) where
  or_more-no_connective :
      (f : ℕ) (rest : Tokens)
      → no_connective rest ≡ true
      → or_more last (suc f) rest ≡ ok (nil, rest)
  unfolding or_more
  or_more-no_connective f rest n = ground arith

  and_more-no_and :
      (f : ℕ) (rest : Tokens) → no_and rest ≡ true → and_more last (suc f) rest ≡ ok (nil, rest)
  unfolding and_more
  and_more-no_and f rest n = ground arith

  mutual
    unfolding or_expr or_more and_expr and_more atom close comparison compared

    Disjunction-or_expr :
        (ts : Tokens) (e : Expr) (rest : Tokens) (f : ℕ)
        → Disjunction ts e
        → no_connective rest ≡ true
        → 3 * length ts + 3 ≤ f
        → or_expr last f (ts ++ rest) ≡ ok (e, rest)
    Disjunction-or_expr ts e rest zero d n h = absurd (omega arith)
    Disjunction-or_expr _ _ rest (suc f) (Disjunction.alternatives {ts} {us} {e} {es} d m) n h =
        rw (append_assoc ts us rest) (
          rw
            (Conjunction-and_expr ts e (us ++ rest) f d (Alternatives-no_and us es rest m n)
              (omega (arith, length-append ts us)))
            (rw (Alternatives-or_more us es rest f m n (omega (arith, length-append ts us))) refl))

    Alternatives-or_more :
        (ts : Tokens) (es : Exprs) (rest : Tokens) (f : ℕ)
        → Alternatives ts es
        → no_connective rest ≡ true
        → 3 * length ts + 1 ≤ f
        → or_more last f (ts ++ rest) ≡ ok (es, rest)
    Alternatives-or_more ts es rest zero d n h = absurd (omega arith)
    Alternatives-or_more _ _ rest (suc f) Alternatives.no_alternative n h =
        or_more-no_connective f rest n
    Alternatives-or_more _ _ rest (suc f) (Alternatives.alternative {ts} {us} {e} {es} o d m) n h =
        rw (append_assoc ts us rest) (
          rw
            (Conjunction-and_expr ts e (us ++ rest) f d (Alternatives-no_and us es rest m n)
              (omega (arith, length-append ts us)))
            (rw (Alternatives-or_more us es rest f m n (omega (arith, length-append ts us))) refl))

    Conjunction-and_expr :
        (ts : Tokens) (e : Expr) (rest : Tokens) (f : ℕ)
        → Conjunction ts e
        → no_and rest ≡ true
        → 3 * length ts + 2 ≤ f
        → and_expr last f (ts ++ rest) ≡ ok (e, rest)
    Conjunction-and_expr ts e rest zero d n h = absurd (omega arith)
    Conjunction-and_expr _ _ rest (suc f) (Conjunction.conjuncts {ts} {us} {e} {es} d m) n h =
        rw (append_assoc ts us rest) (
          rw (Atom-atom ts e (us ++ rest) f d (omega (arith, length-append ts us)))
            (rw (Conjuncts-and_more us es rest f m n (omega (arith, length-append ts us))) refl))

    Conjuncts-and_more :
        (ts : Tokens) (es : Exprs) (rest : Tokens) (f : ℕ)
        → Conjuncts ts es
        → no_and rest ≡ true
        → 3 * length ts + 1 ≤ f
        → and_more last f (ts ++ rest) ≡ ok (es, rest)
    Conjuncts-and_more ts es rest zero d n h = absurd (omega arith)
    Conjuncts-and_more _ _ rest (suc f) Conjuncts.no_conjunct n h = and_more-no_and f rest n
    Conjuncts-and_more _ _ rest (suc f) (Conjuncts.conjunct {ts} {us} {e} {es} o d m) n h =
        rw (append_assoc ts us rest) (
          rw (Atom-atom ts e (us ++ rest) f d (omega (arith, length-append ts us)))
            (rw (Conjuncts-and_more us es rest f m n (omega (arith, length-append ts us))) refl))

    Atom-atom :
        (ts : Tokens) (e : Expr) (rest : Tokens) (f : ℕ)
        → Atom ts e
        → 3 * length ts + 1 ≤ f
        → atom last f (ts ++ rest) ≡ ok (e, rest)
    Atom-atom ts e rest zero d h = absurd (omega arith)
    Atom-atom _ _ rest (suc f) (Atom.group {ts} {e} o p d) h =
        rw (append_assoc ts ((p, rparen) ∷ []) rest) (
          rw
            (Disjunction-or_expr ts e ((p, rparen) ∷ rest) f d refl
              (omega (arith, length-append ts ((p, rparen) ∷ []))))
            refl)
    Atom-atom _ _ rest (suc f) (Atom.comparison a b c path p value k) h = rw (k) refl

pub Disjunction-parse_tokens : (ts : Tokens) (e : Expr) → Disjunction ts e → parse_tokens ts ≡ ok e
unfolding parse_tokens finish or_expr and_expr atom
Disjunction-parse_tokens [] e d = cc (Disjunction-or_expr 0 [] e [] 3 d refl (omega arith))
Disjunction-parse_tokens (t ∷ ts) e d =
    let read =
      Disjunction-or_expr (last_offset (t ∷ ts)) (t ∷ ts) e [] (3 * length (t ∷ ts) + 3) d refl
        (omega arith) in
    rw (rw append-nil at read) refl

-- The tokens parse to an expression exactly where the grammar derives it from them.
pub parse_tokens_iff : (ts : Tokens) (e : Expr) → (parse_tokens ts ≡ ok e) ↔ Disjunction ts e
parse_tokens_iff ts e = (Ensures-ok (parse_tokens-Disjunction ts), Disjunction-parse_tokens ts e)
