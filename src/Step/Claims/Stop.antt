-- ===== src/Step/Claims/Stop.antt =====
-- The claims on tokens under freeze and terminate (step.rs).
use mathlib.Core.Path.{subst}
use rbpmn.Common.{
  ◌≡◌, sym, ap, ◌∙◌, ◌<◌, inl, inr, Option, none, some, String, Among, nowhere, filter,
}
use rbpmn.Common.Maps.{get, keys}
use rbpmn.Process.{NodeIx, ExecutableProcess}
use rbpmn.State.{TokenId, ScopeId, incident}
use rbpmn.Step.Outcome.{Advancer}
use rbpmn.Step.Withdraw.{
  owned_scope, scope_or, cancel_attachments, cancel_items, withdraw_arms, discard_scope,
  open_items_of, freeze, terminate,
}
use rbpmn.Step.Withdraw.Keeps.{cancel_items-Same, withdraw_arms-Same}
use rbpmn.Step.Withdraw.Clears.{terminate-clears, terminate-closes}
use rbpmn.Step.Claims.{
  timer_of, subscription_of, item_of, host_of, holdings, Names, names_timer, names_subscription,
  names_item, names_host, Unnamed, Unmoved, IsSound,
}
use rbpmn.Step.Claims.Update.{put}
use rbpmn.Step.Claims.Less.{Reduces, Reduces-trans}
use rbpmn.Step.Claims.Reduce.{
  withdraw_arms-Reduces, withdraw_arms-IsKept, cancel_items-Reduces, cancel_items-none,
  discard_scope-Reduces, discard_scope-gone,
}
use rbpmn.Step.Claims.Halt.{owned_of_Holds, halt_moves-Sound, halt_decisions-Sound}

-- A token that an incident can be raised on: one in use, not queued, and no scope's unless parked.
pub record Stoppable (a : Advancer) (k : TokenId) : Type 0 where
  pub below : k < a.state.next_token
  pub unmoved : Unmoved a.queue k
  pub unhosted :
      (s : ScopeId) → get k a.state.tokens ≡ none → ¬ Names (holdings a.state) k (host_of s)

module _ (proc : ExecutableProcess) where
  -- What a freeze takes away: the token's arms, its items, the scope that it hosts.
  bare : TokenId → Advancer → Advancer
  bare token a =
      let b = cancel_attachments proc token a in
      cancel_items proc (open_items_of token b.state.work_items) b

  bare-Reduces : (token : TokenId) (a : Advancer) → Reduces a (bare token a)
  unfolding bare
  bare-Reduces token a =
      Reduces-trans (withdraw_arms-Reduces proc (some token) a)
        (cancel_items-Reduces proc _ (withdraw_arms proc (some token) a))

  bare-tokens : (token : TokenId) (a : Advancer) → (bare token a).state.tokens ≡ a.state.tokens
  unfolding bare
  bare-tokens token a =
      (cancel_items-Same proc _ (withdraw_arms proc (some token) a)).same_tokens
      ∙ (withdraw_arms-Same proc (some token) a).same_tokens

  cleared : TokenId → Advancer → Advancer
  cleared token a =
      discard_scope proc (owned_scope (get token (bare token a).state.tokens)) (bare token a)

  cleared-Reduces : (token : TokenId) (a : Advancer) → Reduces a (cleared token a)
  unfolding cleared
  cleared-Reduces token a =
      Reduces-trans (bare-Reduces token a) (discard_scope-Reduces proc _ (bare token a))

  cleared_of : (token : TokenId) (a : Advancer) → Reduces (bare token a) (cleared token a)
  unfolding cleared
  cleared_of token a = discard_scope-Reduces proc _ (bare token a)

  cleared_host :
      (token : TokenId) (s : ScopeId) (a : Advancer)
      → owned_scope (get token (bare token a).state.tokens) ≡ some s
      → ¬ Names (holdings (cleared token a).state) token (host_of s)
  unfolding cleared
  cleared_host token s a e n = discard_scope-gone proc s (bare token a) token (
      subst (λ o. Names (holdings (discard_scope proc o (bare token a)).state) token (host_of s)) e
        n)

  cleared-Unnamed :
      (token : TokenId) (a : Advancer)
      → IsSound a
      → Stoppable a token
      → Unnamed (holdings (cleared token a).state) token
  unfolding bare
  cleared-Unnamed token a s p (timer_of id) n =
      withdraw_arms-IsKept proc token a _
        ((cancel_items-Reduces proc _ _).names token _ ((cleared_of token a).names token _ n))
  cleared-Unnamed token a s p (subscription_of id) n =
      withdraw_arms-IsKept proc token a _
        ((cancel_items-Reduces proc _ _).names token _ ((cleared_of token a).names token _ n))
  cleared-Unnamed token a s p (item_of id) n =
      cancel_items-none proc token id (withdraw_arms proc (some token) a)
        ((cleared_of token a).names token _ n)
  cleared-Unnamed token a s p (host_of id) n =
      let n' = (cleared_of token a).names token _ n in
      let b = (bare-Reduces token a).sound none s in
      elim (owned_of_Holds id (get token (bare token a).state.tokens)
        (b.held token _ n' (λ y. y))) [
          | inl e ↦
              p.unhosted id (ap (get token) (sym (bare-tokens token a)) ∙ e)
                ((bare-Reduces token a).names token _ n')
          | inr e ↦ cleared_host token id a e n
        ]

  pub freeze-IsSound :
      (token : TokenId) (ix : NodeIx) (code detail : Option String) (a : Advancer)
      → IsSound a
      → Stoppable a token
      → IsSound (freeze proc token ix code detail a)
  unfolding freeze cleared bare
  freeze-IsSound token ix code detail a s p =
      let d = cleared token a in
      let r = cleared-Reduces token a in
      halt_moves-Sound d.queue _ (
        halt_decisions-Sound (
          put token
            (record {
              node = ix;
              scope = scope_or d.scope (get token d.state.tokens);
              wait = incident;
            })
            (r.sound none s) (λ j y. absurd y) (λ c n. absurd (cleared-Unnamed token a s p c n))
            (λ m i. p.unmoved m (r.moves m i)) (subst (λ n. token < n) (sym r.same_next) p.below)))

  terminate-Unnamed : (a : Advancer) (k : TokenId) → Unnamed (holdings (terminate proc a).state) k
  terminate-Unnamed a k c (names_timer i t m q) =
      nowhere (subst (Among (i, t)) (terminate-clears proc a).3 m)
  terminate-Unnamed a k c (names_subscription i t m q) =
      nowhere (subst (Among (i, t)) (terminate-clears proc a).4 m)
  terminate-Unnamed a k c (names_item i t g o q) = cc (o, terminate-closes proc a i t g)
  terminate-Unnamed a k c (names_host i t m q) =
      nowhere (subst (Among (i, t)) (terminate-clears proc a).2 m)

  pub terminate-IsSound : (a : Advancer) → IsSound a → IsSound (terminate proc a)
  unfolding terminate
  terminate-IsSound a s =
      let ids = keys (filter (λ e. e.1.is_open) a.state.work_items) in
      let r =
        Reduces-trans (cancel_items-Reduces proc ids a)
          (withdraw_arms-Reduces proc none (cancel_items proc ids a)) in
      record {
        ordered = tt;
        held = λ k c n y. absurd (terminate-Unnamed a k c n);
        known = λ k c n. absurd (terminate-Unnamed a k c n);
        minted = λ k t e. cc;
        loose = λ m i. nowhere i;
        apart = tt;
        asked = λ k i.
            let p = (r.sound none s).asked k i in
            record { unnamed = terminate-Unnamed a k; unmoved = λ m j. nowhere j; below = p.below };
      }
