-- ===== src/Step/Withdraw/Subtree.antt =====
-- `scope_subtree` (state.rs) against the scopes below a scope.
use mathlib.Core.Path.{subst}
use rbpmn.Common.{
  ℕ, zero, suc, ◌+◌, ◌≤◌, ◌<◌, ◌≡◌, refl, sym, ap, ◌∙◌, inl, inr, List, [], ◌∷◌, ◌++◌, length,
  length-append, arith, ◌==◌, Bool-cases, Among, first, later, Among-cons, Among-append, nowhere,
}
use rbpmn.Common.Maps.{keys}
use rbpmn.State.{InstanceState, ScopeId, ScopeState, children, subtree_loop, scope_subtree}
use rbpmn.Step.Withdraw.Entries.{
  count, AreScopes, Entries, under, beside, under-beside, length-keys, length-parts, count-append,
  count-parts, others, others-le, count-others, under-others, Among-after, Among-split, Among-under,
  Among-count,
}

-- A scope, or one that is open below it.
pub data Inside (s : InstanceState) (top : ScopeId) : ScopeId → Type 0 where
  itself : Inside s top top
  below :
      {p k : ScopeId} {e : ScopeState}
      → Inside s top p
      → Among (k, e) s.scopes
      → e.parent ≡ p
      → Inside s top k

module _ (s : InstanceState) (top : ScopeId) (w : AreScopes s.scopes) where
  -- Between two rounds of the loop, with the entries that are still to come.
  record Round (pending : List ScopeId) (left : Entries) : Type 0 where
    once : (k : ScopeId) → count k pending + count k (keys left) ≤ 1
    whole :
        (q : ScopeId)
        → 1 ≤ count q pending + count q (keys left)
        → under q left ≡ under q (others top s.scopes)
    above : (q : ScopeId) → Among q pending → top ≤ q

  children-under :
      (p : ScopeId) (pending : List ScopeId) (left : Entries)
      → Round (p ∷ pending) left
      → children s p ≡ keys (under p left)
  unfolding children
  children-under p pending left r = ap keys (
      sym (under-others top p s.scopes w.older (r.above p first))
      ∙ sym (r.whole p (omega (arith, Among-count p (p ∷ pending) first))))

  next-Round :
      (p : ScopeId) (pending : List ScopeId) (left : Entries)
      → Round (p ∷ pending) left
      → Round (pending ++ keys (under p left)) (beside p left)
  unfolding children
  next-Round p pending left r = record {
    once = λ k.
        omega (arith, r.once k, count-append k pending (keys (under p left)), count-parts k p left);
    whole = λ q h. elim (Bool-cases (p == q)) [
      | inl e ↦
          let total = r.once q in
          absurd (
            ground (
              arith,
              h,
              total,
              e,
              count-append q pending (keys (under p left)),
              count-parts q p left,
            ))
      | inr e ↦
          under-beside p q left e
          ∙ r.whole q
              (omega (arith, h, count-append q pending (keys (under p left)), count-parts q p left))
    ];
    above = λ q h. elim (Among-split pending (keys (under p left)) h) [
      | inl n ↦ r.above q (later n)
      | inr n ↦
          let (e, (m, a)) =
            (Among-under p q s.scopes).0
              (subst (Among q) (sym (children-under p pending left r)) n) in
          omega (arith, w.older q e m, a, r.above p first)
    ];
  }

  -- What the loop gives has the queue in it, and the children of each scope in it.
  record Covers (pending out : List ScopeId) : Type 0 where
    queued : (k : ScopeId) → Among k pending → Among k out
    closed : (p k : ScopeId) → Among p out → Among k (children s p) → Among k out

  subtree_loop-Covers :
      (fuel : ℕ) (pending : List ScopeId) (left : Entries)
      → length pending + length left < fuel
      → Round pending left
      → Covers pending (subtree_loop fuel s pending)
  unfolding subtree_loop
  subtree_loop-Covers zero pending left l r = absurd (omega (arith, l))
  subtree_loop-Covers (suc fuel) [] left l r = record {
    queued = λ k h. nowhere h;
    closed = λ p k h c. nowhere h;
  }
  subtree_loop-Covers (suc fuel) (p ∷ pending) left l r =
      let same = children-under p pending left r in
      let few : length (pending ++ children s p) + length (beside p left) < fuel = omega (
        arith,
        l,
        length-append pending (children s p),
        ap length same,
        length-keys (under p left),
        length-parts p left,
      ) in
      let next =
        subst (λ cs. Round (pending ++ cs) (beside p left)) (sym same)
          (next-Round p pending left r) in
      let c = subtree_loop-Covers fuel (pending ++ children s p) (beside p left) few next in
      record {
        queued = λ k h. elim (Among-cons h) [
          | inl e ↦ subst (λ x. Among k (x ∷ subtree_loop fuel s (pending ++ children s p))) e first
          | inr n ↦ later (c.queued k (Among-append (children s p) n))
        ];
        closed = λ q k h m. elim (Among-cons h) [
          | inl e ↦
              later (c.queued k (Among-after pending (subst (λ x. Among k (children s x)) e m)))
          | inr n ↦ later (c.closed q k n m)
        ];
      }

  first-Round : Round (top ∷ []) (others top s.scopes)
  first-Round = record {
    once = λ k. ground (arith, w.one_entry k, count-others k top s.scopes);
    whole = λ q h. refl;
    above = λ q h. elim (Among-cons h) [ inl e ↦ omega (arith, e) | inr n ↦ nowhere n ];
  }

  -- Every scope that is open below a scope is in its subtree.
  pub scope_subtree-Inside : {k : ScopeId} → Inside s top k → Among k (scope_subtree s top)
  unfolding scope_subtree children
  scope_subtree-Inside i =
      let c =
        subtree_loop-Covers (suc (suc (length s.scopes))) (top ∷ []) (others top s.scopes)
          (omega (arith, others-le top s.scopes)) first-Round in
      reached c i
    where
      reached :
          {k : ScopeId}
          → Covers (top ∷ []) (subtree_loop (suc (suc (length s.scopes))) s (top ∷ []))
          → Inside s top k
          → Among k (subtree_loop (suc (suc (length s.scopes))) s (top ∷ []))
      reached c itself = c.queued top first
      reached c (below {p} {k} {e} j m q) =
          c.closed p k (reached c j) ((Among-under p k s.scopes).1 (e, (m, q)))
