-- ===== src/Condition/Parser/Sound.antt =====
-- Whatever parses derives from the grammar, and the fuel of `parse` suffices.
use mathlib.Core.Path.{subst}
use rbpmn.Common.{
  ℕ, zero, suc, ◌+◌, ◌*◌, ◌≤◌, ◌≡◌, refl, sym, ◌∙◌, ap, not, ◌&&◌, inl, inr, List, [], ◌∷◌, ◌++◌,
  arith, length, length-append, append_assoc, append-nil, Bool-cases, String,
}
use rbpmn.Condition.{CmpOp, Expr, cons}
use rbpmn.Condition.Tokens.{
  Tok, lparen, rparen, and, or, op, name, lit, Tokens, Parsed, Ensures, holds, fails, Ensures-bind,
}
use rbpmn.Condition.Parser.{
  is_ordering, is_num, conj_of, disj_of, close, compared, comparison, or_expr, or_more, and_expr,
  and_more, atom, finish, last_offset, parse_tokens,
}
use rbpmn.Condition.Parser.Grammar.{Disjunction, Alternatives, Conjunction, Conjuncts, Atom}

-- `P` holds of the offset of each token.
abbrev pub Offsets : (ℕ → Type 0) → Tokens → Type 0
Offsets P [] = Unit {0}
Offsets P ((o, _) ∷ ts) = P o × Offsets P ts

Offsets-append : (P : ℕ → Type 0) (us ts : Tokens) → Offsets P (us ++ ts) → Offsets P ts
Offsets-append P [] ts a = a
Offsets-append P (_ ∷ us) ts (_, a) = Offsets-append P us ts a

last_offset-Offsets :
    (P : ℕ → Type 0) (t : ℕ × Tok) (ts : Tokens) → Offsets P (t ∷ ts) → P (last_offset (t ∷ ts))
last_offset-Offsets P t [] (p, _) = p
last_offset-Offsets P t (u ∷ ts) (_, a) = last_offset-Offsets P u ts a

-- The tokens read derive the value, and are at least `n`.
abbrev Reads {ℓ} : {A : Type ℓ} → (Tokens → A → Type 0) → ℕ → Tokens → A × Tokens → Type 0
Reads D n ts (a, rest) = (used : Tokens) × ((ts ≡ used ++ rest) × (D used a × (n ≤ length used)))

compared-Reads :
    (P : ℕ → Type 0) (a o : ℕ) (path : List String) (p : CmpOp) (ts : Tokens)
    → P o
    → Offsets P ts
    → Ensures
        (λ (e, rest). Reads Atom 1 ((a, name path) ∷ (o, op p) ∷ ts) (e, rest))
        P
        (compared o path p ts)
unfolding compared
compared-Reads P a o path p ((at, lit value) ∷ ts) k (k', _) =
    elim (Bool-cases (is_ordering p && not (is_num value))) [
      | inl h ↦ rw (h) (fails k')
      | inr h ↦ rw (h) (
          holds (
            (a, name path) ∷ (o, op p) ∷ (at, lit value) ∷ [],
            (refl, (Atom.comparison a o at path p value h, omega arith)),
          ))
    ]
compared-Reads P a o path p _ k _ = fails k

comparison-Reads :
    (P : ℕ → Type 0) (o : ℕ) (path : List String) (ts : Tokens)
    → P o
    → Offsets P ts
    → Ensures (Reads Atom 1 ((o, name path) ∷ ts)) P (comparison o path ts)
unfolding comparison
comparison-Reads P o path ((at, op p) ∷ ts) k (k', a) = compared-Reads P o at path p ts k' a
comparison-Reads P o path ((paren, lparen) ∷ ts) k (k', _) = fails k'
comparison-Reads P o path _ k _ = fails k

close-Reads :
    (P : ℕ → Type 0) (o : ℕ) (e : Expr) (ts rest : Tokens)
    → P o
    → Reads Disjunction 1 ts (e, rest)
    → Ensures (Reads Atom 1 ((o, lparen) ∷ ts)) P (close o e rest)
unfolding close
close-Reads P o e ts ((p, rparen) ∷ rest) k (used, (cut, (d, n))) = holds (
  (o, lparen) ∷ (used ++ (p, rparen) ∷ []),
  (
    ap (λ t. (o, lparen) ∷ t) (cut ∙ sym (append_assoc used ((p, rparen) ∷ []) rest)),
    (Atom.group o p d, omega arith),
  ),
)
close-Reads P o e ts _ k r = fails k

abbrev SoundAt {ℓ} :
    {A : Type ℓ} → (ℕ → Type 0) → (Tokens → A → Type 0) → ℕ → Tokens → Parsed (A × Tokens) → Type ℓ
SoundAt P D n ts = Ensures (Reads D n ts) P

-- What two reads in a row read, the second of a list of parts.
both :
    {A B C : Type 0} (D : Tokens → A → Type 0) (E : Tokens → B → Type 0) (F : Tokens → C → Type 0)
    (ts middle rest : Tokens) (a : A) (b : B) (c : C)
    → ((us vs : Tokens) → D us a → E vs b → F (us ++ vs) c)
    → Reads D 1 ts (a, middle)
    → Reads E 0 middle (b, rest)
    → Reads F 1 ts (c, rest)
both D E F ts middle rest a b c f (us, (cut, (d, n))) (vs, (cut', (e, _))) = (
  us ++ vs,
  (
    cut ∙ ap (λ t. us ++ t) cut' ∙ sym (append_assoc us vs rest),
    (f us vs d e, omega (arith, n, length-append us vs)),
  ),
)

-- A read that is preceded by one more token.
after :
    {A : Type 0} (E : Tokens → A → Type 0) (n o : ℕ) (t : Tok) (ts rest : Tokens) (a : A)
    → Reads (λ us. E ((o, t) ∷ us)) n ts (a, rest)
    → Reads E 0 ((o, t) ∷ ts) (a, rest)
after E n o t ts rest a (us, (cut, (d, _))) =
    ((o, t) ∷ us, (ap (λ s. (o, t) ∷ s) cut, (d, omega arith)))

shorter :
    {A : Type 0} (D : Tokens → A → Type 0) (ts rest : Tokens) (a : A)
    → Reads D 1 ts (a, rest)
    → suc (length rest) ≤ length ts
shorter D ts rest a (used, (cut, (_, n))) = omega (arith, ap length cut, length-append used rest, n)

remaining :
    {A : Type 0} (P : ℕ → Type 0) (D : Tokens → A → Type 0) (n : ℕ) (ts rest : Tokens) (a : A)
    → Reads D n ts (a, rest)
    → Offsets P ts
    → Offsets P rest
remaining P D n ts rest a (used, (cut, _)) q = Offsets-append P used rest (subst (Offsets P) cut q)

module _ (P : ℕ → Type 0) (last : ℕ) (at_last : P last) where
  mutual
    unfolding or_expr or_more and_expr and_more atom

    or_expr-Reads :
        (f : ℕ) (ts : Tokens)
        → Offsets P ts
        → 3 * length ts + 3 ≤ f
        → SoundAt P Disjunction 1 ts (or_expr last f ts)
    or_expr-Reads zero ts q h = absurd (omega arith)
    or_expr-Reads (suc f) ts q h = Ensures-bind (and_expr-Reads f ts q (omega arith)) λ (e, rest) r.
        Ensures-bind
          (or_more-Reads f rest (remaining P Conjunction 1 ts rest e r q)
            (omega (arith, shorter Conjunction ts rest e r)))
          λ (es, rest') s. holds (
            both Conjunction Alternatives Disjunction ts rest rest' e es (disj_of e es)
              (λ us vs d m. Disjunction.alternatives d m) r s)

    or_more-Reads :
        (f : ℕ) (ts : Tokens)
        → Offsets P ts
        → 3 * length ts + 1 ≤ f
        → SoundAt P Alternatives 0 ts (or_more last f ts)
    or_more-Reads zero ts q h = absurd (omega arith)
    or_more-Reads (suc f) ((o, or) ∷ ts) (_, q) h =
        Ensures-bind (and_expr-Reads f ts q (omega arith)) λ (e, rest) r.
          Ensures-bind
            (or_more-Reads f rest (remaining P Conjunction 1 ts rest e r q)
              (omega (arith, shorter Conjunction ts rest e r)))
            λ (es, rest') s. holds (
              after Alternatives 1 o or ts rest' (cons e es) (
                both Conjunction Alternatives (λ t. Alternatives ((o, or) ∷ t)) ts rest rest' e es
                  (cons e es) (λ us vs d m. Alternatives.alternative o d m) r s))
    or_more-Reads (suc f) ts q h = holds ([], (refl, (Alternatives.no_alternative, omega arith)))

    and_expr-Reads :
        (f : ℕ) (ts : Tokens)
        → Offsets P ts
        → 3 * length ts + 2 ≤ f
        → SoundAt P Conjunction 1 ts (and_expr last f ts)
    and_expr-Reads zero ts q h = absurd (omega arith)
    and_expr-Reads (suc f) ts q h = Ensures-bind (atom-Reads f ts q (omega arith)) λ (e, rest) r.
        Ensures-bind
          (and_more-Reads f rest (remaining P Atom 1 ts rest e r q)
            (omega (arith, shorter Atom ts rest e r)))
          λ (es, rest') s. holds (
            both Atom Conjuncts Conjunction ts rest rest' e es (conj_of e es)
              (λ us vs d m. Conjunction.conjuncts d m) r s)

    and_more-Reads :
        (f : ℕ) (ts : Tokens)
        → Offsets P ts
        → 3 * length ts + 1 ≤ f
        → SoundAt P Conjuncts 0 ts (and_more last f ts)
    and_more-Reads zero ts q h = absurd (omega arith)
    and_more-Reads (suc f) ((o, and) ∷ ts) (_, q) h =
        Ensures-bind (atom-Reads f ts q (omega arith)) λ (e, rest) r.
          Ensures-bind
            (and_more-Reads f rest (remaining P Atom 1 ts rest e r q)
              (omega (arith, shorter Atom ts rest e r)))
            λ (es, rest') s. holds (
              after Conjuncts 1 o and ts rest' (cons e es) (
                both Atom Conjuncts (λ t. Conjuncts ((o, and) ∷ t)) ts rest rest' e es (cons e es)
                  (λ us vs d m. Conjuncts.conjunct o d m) r s))
    and_more-Reads (suc f) ts q h = holds ([], (refl, (Conjuncts.no_conjunct, omega arith)))

    atom-Reads :
        (f : ℕ) (ts : Tokens)
        → Offsets P ts
        → 3 * length ts + 1 ≤ f
        → SoundAt P Atom 1 ts (atom last f ts)
    atom-Reads zero ts q h = absurd (omega arith)
    atom-Reads (suc f) [] q h = fails at_last
    atom-Reads (suc f) ((o, lparen) ∷ ts) (k, q) h =
        Ensures-bind (or_expr-Reads f ts q (omega arith))
          λ (e, rest) r. close-Reads P o e ts rest k r
    atom-Reads (suc f) ((o, name path) ∷ ts) (k, q) h = comparison-Reads P o path ts k q
    atom-Reads (suc f) ((o, _) ∷ ts) (k, q) h = fails k

finish-Ensures :
    (P : ℕ → Type 0) (ts : Tokens) (e : Expr) (rest : Tokens)
    → Offsets P rest
    → Reads Disjunction 1 ts (e, rest)
    → Ensures (Disjunction ts) P (finish e rest)
unfolding finish
finish-Ensures P ts e [] q (used, (cut, (d, _))) =
    holds (subst (λ t. Disjunction t e) (sym (cut ∙ append-nil used)) d)
finish-Ensures P ts e ((o, _) ∷ _) (k, _) r = fails k

-- Reading tokens does not exhaust its fuel, what it reads from them derives from all of them, and an
-- error is at the offset of one of them, or at 0 where there is none.
pub parse_tokens-Ensures :
    (P : ℕ → Type 0) (ts : Tokens)
    → P 0
    → Offsets P ts
    → Ensures (Disjunction ts) P (parse_tokens ts)
unfolding parse_tokens
parse_tokens-Ensures P [] k q = fails k
parse_tokens-Ensures P (t ∷ ts) k q =
    Ensures-bind
      (or_expr-Reads P (last_offset (t ∷ ts)) (last_offset-Offsets P t ts q)
        (3 * length (t ∷ ts) + 3) (t ∷ ts) q (omega arith))
      λ (e, rest) r.
        finish-Ensures P (t ∷ ts) e rest (remaining P Disjunction 1 (t ∷ ts) rest e r q) r

-- Without a claim about the offsets.
pub parse_tokens-Disjunction :
    (ts : Tokens) → Ensures (Disjunction ts) (λ _. Unit {0}) (parse_tokens ts)
parse_tokens-Disjunction ts = parse_tokens-Ensures (λ _. Unit {0}) ts tt (anywhere ts)
  where
    anywhere : (ts : Tokens) → Offsets (λ _. Unit {0}) ts
    anywhere [] = tt
    anywhere (_ ∷ ts) = (tt, anywhere ts)
