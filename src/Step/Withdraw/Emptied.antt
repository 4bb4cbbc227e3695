-- ===== src/Step/Withdraw/Emptied.antt =====
-- What `tear_down_scope` leaves in the scopes that it tears down (step.rs).
use rbpmn.Common.{
  ℕ, ◌≡◌, sym, true, some, List, [], ◌∷◌, Among, Among-cons, nowhere, inl, inr, ◌==◌, ==_iff, arith,
}
use rbpmn.Common.Maps.{get}
use rbpmn.Process.{ExecutableProcess}
use rbpmn.State.{TokenId, ScopeId, Token, scope_subtree}
use rbpmn.Step.Outcome.{Advancer}
use rbpmn.Step.Withdraw.{contains, tear_down_scope}
use rbpmn.Step.Withdraw.Entries.{AreScopes}
use rbpmn.Step.Withdraw.Subtree.{Inside, scope_subtree-Inside}
use rbpmn.Step.Withdraw.Clears.{tear_down_scope-contains}

Among-contains : (k : ℕ) (xs : List ℕ) → Among k xs → contains xs k ≡ true
Among-contains k [] h = nowhere h
Among-contains k (x ∷ xs) h = elim (Among-cons h) [
  | inl e ↦ let here : (x == k) ≡ true = (==_iff x k).1 (sym e) in ground (arith, here)
  | inr n ↦ let more = Among-contains k xs n in ground (arith, more)
]

-- A teardown of a scope leaves no token parked in it or in a scope that is open inside it, at any
-- depth, where each open scope has one entry and lies in an older one.
pub tear_down_scope-empties :
    (proc : ExecutableProcess) (top : ScopeId) (a : Advancer) (k : TokenId) (t : Token)
    → AreScopes a.state.scopes
    → get k (tear_down_scope proc top a).state.tokens ≡ some t
    → ¬ Inside a.state top t.scope
tear_down_scope-empties proc top a k t w h i =
    let gone = tear_down_scope-contains proc top a k t h in
    let there =
      Among-contains t.scope (scope_subtree a.state top) (scope_subtree-Inside a.state top w i) in
    cc
