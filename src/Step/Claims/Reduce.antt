-- ===== src/Step/Claims/Reduce.antt =====
-- The claims on tokens under cancel_work_item, withdraw_arms, tear_down_scope (step.rs).
use rbpmn.Common.{
  ℕ, refl, Bool, false, not, ◌&&◌, ◌||◌, Option, none, some, List, [], ◌∷◌, ◌==◌, ==_iff, filter,
  Among-filter,
}
use rbpmn.Common.Maps.{get, keys}
use rbpmn.Process.{ExecutableProcess}
use rbpmn.State.{TokenId, WorkItemId, ScopeId, scope_subtree}
use rbpmn.Step.Outcome.{Advancer, Move}
use rbpmn.Step.Withdraw.{
  cancel_work_item, cancel_items, withdraw_arms, reap, reap_all, tear_down_scope, discard_scope,
  open_items_of, contains,
}
use rbpmn.Step.Withdraw.Clears.{cancel_items-open, contains-keys}
use rbpmn.Step.Claims.{
  Claim, timer_of, subscription_of, item_of, host_of, holdings, Names, names_timer,
  names_subscription, names_item, names_host, IsHost,
}
use rbpmn.Step.Claims.Lookup.{get-remove_sub}
use rbpmn.Step.Claims.Update.{shrink, erase}
use rbpmn.Step.Claims.Queue.{dequeue_some}
use rbpmn.Step.Claims.Less.{on_option, Reduces, Reduces-trans, Reduces-refl, Names-closed, IsKept}

module _ (proc : ExecutableProcess) where
  pub cancel_work_item-Reduces : (id : ℕ) (a : Advancer) → Reduces a (cancel_work_item proc id a).1
  unfolding cancel_work_item
  cancel_work_item-Reduces id a =
      on_option {B = Bool × Advancer} (λ r. Reduces a r.1) (get id a.state.work_items)
        (λ _. Reduces-refl a)
        λ item e. record {
          names = λ k c n. (Names-closed id (record item { is_open = false }) refl n).0;
          parked = λ k t g. g;
          moves = λ m i. i;
          same_next = refl;
          same_asked = refl;
          sound = λ x s.
              shrink s (λ k c n. (Names-closed id (record item { is_open = false }) refl n).0);
        }

  pub cancel_items-Reduces : (ids : List ℕ) (a : Advancer) → Reduces a (cancel_items proc ids a)
  unfolding cancel_items
  cancel_items-Reduces [] a = Reduces-refl a
  cancel_items-Reduces (id ∷ ids) a =
      Reduces-trans (cancel_work_item-Reduces id a)
        (cancel_items-Reduces ids (cancel_work_item proc id a).1)

  -- Cancelling the open items of a token leaves none that names it.
  pub cancel_items-none :
      (k : TokenId) (id : WorkItemId) (a : Advancer)
      → ¬ Names
          (holdings (cancel_items proc (open_items_of k a.state.work_items) a).state)
          k
          (item_of id)
  cancel_items-none k id a (names_item i t g o q) =
      let r = cancel_items-open proc (open_items_of k a.state.work_items) i a t g o in
      cc (
        r.0,
        contains-keys (λ e. e.1.is_open && e.1.token == k) i t a.state.work_items r.1
            (rw o ((==_iff t.token k).1 q)),
      )

  withdraw_arms-sub :
      (o : Option TokenId) (a : Advancer) (k : TokenId) (c : Claim)
      → Names (holdings (withdraw_arms proc o a).state) k c
      → Names (holdings a.state) k c
  unfolding withdraw_arms
  withdraw_arms-sub o a k c (names_timer i t m q) = names_timer i t (Among-filter _ _ m).0 q
  withdraw_arms-sub o a k c (names_subscription i t m q) =
      names_subscription i t (Among-filter _ _ m).0 q
  withdraw_arms-sub o a k c (names_item i t g o' q) = names_item i t g o' q
  withdraw_arms-sub o a k c (names_host i t m q) = names_host i t m q

  -- After a withdrawal no arm names the token.
  pub withdraw_arms-IsKept :
      (k : TokenId) (a : Advancer) (c : Claim)
      → Names (holdings (withdraw_arms proc (some k) a).state) k c
      → IsKept c
  unfolding withdraw_arms
  withdraw_arms-IsKept k a c (names_timer i t m q) =
      let timers = a.state.timers in
      cc ((Among-filter (λ e. not (e.1.token == k)) timers m).1, (==_iff t.token k).1 q)
  withdraw_arms-IsKept k a c (names_subscription i t m q) =
      let subs = a.state.subscriptions in
      cc ((Among-filter (λ e. not (e.1.token == k)) subs m).1, (==_iff t.token k).1 q)
  withdraw_arms-IsKept k a c (names_item i t g o q) = tt
  withdraw_arms-IsKept k a c (names_host i t m q) = tt

  pub withdraw_arms-Reduces :
      (o : Option TokenId) (a : Advancer) → Reduces a (withdraw_arms proc o a)
  unfolding withdraw_arms
  withdraw_arms-Reduces o a = record {
    names = withdraw_arms-sub o a;
    parked = λ k t e. e;
    moves = λ m i. i;
    same_next = refl;
    same_asked = refl;
    sound = λ x s. shrink s (withdraw_arms-sub o a);
  }

  -- The items and the arms of a token, cancelled and withdrawn: only a scope still names it.
  bared :
      (t : TokenId) (a : Advancer) (c : Claim)
      → Names
          (holdings
            (withdraw_arms proc
              (some t)
              (cancel_items proc (open_items_of t a.state.work_items) a)).state)
          t
          c
      → IsHost c
  bared t a (timer_of id) n = withdraw_arms-IsKept t _ _ n
  bared t a (subscription_of id) n = withdraw_arms-IsKept t _ _ n
  bared t a (item_of id) n = cancel_items-none t id a (withdraw_arms-sub (some t) _ t _ n)
  bared t a (host_of id) n = tt

  pub reap-Reduces : (t : TokenId) (a : Advancer) → Reduces a (reap proc t a)
  unfolding reap
  reap-Reduces t a =
      let cancelled = cancel_items proc (open_items_of t a.state.work_items) a in
      Reduces-trans (cancel_items-Reduces (open_items_of t a.state.work_items) a) (
        Reduces-trans (withdraw_arms-Reduces (some t) cancelled) (record {
          names = λ k c n. n;
          parked = λ k u e. get-remove_sub t k u _ e;
          moves = λ m i. i;
          same_next = refl;
          same_asked = refl;
          sound = λ x s. erase t s (bared t a);
        }))

  pub reap_all-Reduces : (ts : List TokenId) (a : Advancer) → Reduces a (reap_all proc ts a)
  unfolding reap_all
  reap_all-Reduces [] a = Reduces-refl a
  reap_all-Reduces (t ∷ ts) a =
      Reduces-trans (reap-Reduces t a) (reap_all-Reduces ts (reap proc t a))

  unqueued-Reduces :
      (p : Move → Bool) (a : Advancer) → Reduces a (record a { queue = filter p a.queue })
  unqueued-Reduces p a = record {
    names = λ k c n. n;
    parked = λ k t e. e;
    moves = λ m i. (Among-filter p a.queue i).0;
    same_next = refl;
    same_asked = refl;
    sound = λ x s. dequeue_some p s;
  }

  pub unscoped-Reduces :
      (p : ℕ → Bool) (a : Advancer)
      → Reduces a
          (record a { state = record (a.state) { scopes = filter (λ e. p e.0) a.state.scopes } })
  unscoped-Reduces p a = record {
    names = sub;
    parked = λ k t e. e;
    moves = λ m i. i;
    same_next = refl;
    same_asked = refl;
    sound = λ x s. shrink s sub;
  }
    where
      sub :
          (k : TokenId) (c : Claim)
          → Names (holdings (record (a.state) { scopes = filter (λ e. p e.0) a.state.scopes })) k c
          → Names (holdings a.state) k c
      sub k c (names_timer i t m q) = names_timer i t m q
      sub k c (names_subscription i t m q) = names_subscription i t m q
      sub k c (names_item i t g o q) = names_item i t g o q
      sub k c (names_host i t m q) = names_host i t (Among-filter (λ e. p e.0) a.state.scopes m).0 q

  pub tear_down_scope-Reduces :
      (top : ScopeId) (a : Advancer) → Reduces a (tear_down_scope proc top a)
  unfolding tear_down_scope
  tear_down_scope-Reduces top a =
      let doomed = scope_subtree a.state top in
      let b : Advancer = record a { queue = filter (λ m. not (contains doomed m.scope)) a.queue } in
      let ts = keys (filter (λ e. contains doomed e.1.scope) a.state.tokens) in
      Reduces-trans (unqueued-Reduces (λ m. not (contains doomed m.scope)) a) (
        Reduces-trans (reap_all-Reduces ts b)
          (unscoped-Reduces (λ id. id == top || not (contains doomed id)) (reap_all proc ts b)))

  -- Tearing a scope down drops its own entry too.
  pub discard_scope-Reduces :
      (o : Option ScopeId) (a : Advancer) → Reduces a (discard_scope proc o a)
  unfolding discard_scope
  discard_scope-Reduces none a = Reduces-refl a
  discard_scope-Reduces (some s) a =
      Reduces-trans (tear_down_scope-Reduces s a)
        (unscoped-Reduces (λ j. not (j == s)) (tear_down_scope proc s a))

  pub discard_scope-gone :
      (s : ScopeId) (a : Advancer) (k : TokenId)
      → ¬ Names (holdings (discard_scope proc (some s) a).state) k (host_of s)
  unfolding discard_scope
  discard_scope-gone s a k (names_host i t m q) =
      let scopes = (tear_down_scope proc s a).state.scopes in
      cc ((Among-filter (λ e. not (e.0 == s)) scopes m).1, (==_iff s s).1 refl)
