-- ===== src/Step/Withdraw/Clears.antt =====
-- What a teardown and a termination leave nothing of.
use mathlib.Core.Option.{some-injective}
use mathlib.Core.Path.{subst}
use rbpmn.Common.{
  ℕ, ◌≡◌, refl, sym, ap, ◌∙◌, inl, inr, Bool, true, false, not, ◌||◌, Option, none, some, List, [],
  ◌∷◌, arith, any, filter, ◌==◌, ==_iff, Bool-cases, Option-cases, Option-cases, if◌then◌else◌,
}
use rbpmn.Common.Maps.{Map, get, insert, keys, remove, get-insert, get-remove}
use rbpmn.Process.{ExecutableProcess}
use rbpmn.State.{TokenId, ScopeId, Token, WorkItemState, terminated, scope_subtree}
use rbpmn.Step.Outcome.{Advancer}
use rbpmn.Step.Withdraw.{
  cancel_work_item, cancel_items, withdraw_arms, reap, reap_all, tear_down_scope, terminate,
  contains, open_items_of,
}
use rbpmn.Step.Withdraw.Keeps.{cancel_items-Same, withdraw_arms-Same}

keys-here :
    {V : Type 0} (p : ℕ × V → Bool) (k j : ℕ) (w : V) (m : Map V)
    → p (j, w) ≡ true
    → (j == k) ≡ true
    → contains (keys (filter p ((j, w) ∷ m))) k ≡ true
keys-here p k j w m h e = ground arith

keys-past :
    {V : Type 0} (p : ℕ × V → Bool) (k j : ℕ) (w : V) (m : Map V)
    → contains (keys (filter p m)) k ≡ true
    → contains (keys (filter p ((j, w) ∷ m))) k ≡ true
keys-past p k j w m h = ground arith

-- An entry that passes a test is among the keys of those that do.
pub contains-keys :
    {V : Type 0} (p : ℕ × V → Bool) (k : ℕ) (v : V) (m : Map V)
    → get k m ≡ some v
    → p (k, v) ≡ true
    → contains (keys (filter p m)) k ≡ true
contains-keys p k v [] h q = cc
contains-keys p k v ((j, w) ∷ m) h q = elim (Bool-cases (j == k)) [
  | inl e ↦
      let same = (==_iff j k).0 e in
      let value = some-injective w v (rw e at h) in keys-here p k j w m (cc (q, same, value)) e
  | inr e ↦ keys-past p k j w m (contains-keys p k v m (rw e at h) q)
]

filter_none : {A : Type 0} (xs : List A) → filter (λ _. false) xs ≡ []
filter_none [] = refl
filter_none (x ∷ xs) = filter_none xs

any-filter_out :
    {A : Type 0} (p : A → Bool) (xs : List A) → any p (filter (λ x. not (p x)) xs) ≡ false
any-filter_out p [] = refl
any-filter_out p (x ∷ xs) = ground (arith, any-filter_out p xs)

module _ (proc : ExecutableProcess) where
  reap-tokens :
      (t : TokenId) (a : Advancer) → (reap proc t a).state.tokens ≡ remove t a.state.tokens
  unfolding reap
  reap-tokens t a =
      let items = open_items_of t a.state.work_items in
      ap (remove t) (
        (withdraw_arms-Same proc (some t) (cancel_items proc items a)).same_tokens
        ∙ (cancel_items-Same proc items a).same_tokens)

  pub reap_all-get :
      (ts : List TokenId) (k : ℕ) (a : Advancer)
      → get k (reap_all proc ts a).state.tokens
        ≡ (if contains ts k then none else get k a.state.tokens)
  unfolding reap_all
  reap_all-get [] k a = refl
  reap_all-get (t ∷ ts) k a =
      let e = ap (get k) (reap-tokens t a) in
      ground (arith, reap_all-get ts k (reap proc t a), get-remove t k a.state.tokens)

  -- After a teardown no token is parked in a scope that is listed in the subtree.
  pub tear_down_scope-contains :
      (top : ScopeId) (a : Advancer) (k : TokenId) (t : Token)
      → get k (tear_down_scope proc top a).state.tokens ≡ some t
      → contains (scope_subtree a.state top) t.scope ≡ false
  unfolding tear_down_scope
  tear_down_scope-contains top a k t h =
      let doomed = scope_subtree a.state top in
      let ts = keys (filter (λ e. contains doomed e.1.scope) a.state.tokens) in
      let b = record a { queue = filter (λ m. not (contains doomed m.scope)) a.queue } in
      let left = sym (reap_all-get ts k b) ∙ h in
      elim (Bool-cases (contains ts k)) [
        | inl e ↦ cc (rw e at left)
        | inr e ↦ elim (Bool-cases (contains doomed t.scope)) [
          | inl d ↦ cc (
            e,
            contains-keys (λ x. contains doomed x.1.scope) k t a.state.tokens (rw e at left) d,
          )
          | inr d ↦ d
        ]
      ]

  -- What a cancelled item becomes.
  shut : Option WorkItemState → Option WorkItemState
  shut none = none
  shut (some item) = some (record item { is_open = false })

  shut_twice : (o : Option WorkItemState) → shut (shut o) ≡ shut o
  unfolding shut
  shut_twice none = refl
  shut_twice (some item) = refl

  cancel_work_item-none :
      (id : ℕ) (a : Advancer)
      → get id a.state.work_items ≡ none
      → (cancel_work_item proc id a).1 ≡ a
  unfolding cancel_work_item
  cancel_work_item-none id a h = rw (h, cancel_work_item) refl

  cancel_work_item-some :
      (id : ℕ) (a : Advancer) (item : WorkItemState)
      → get id a.state.work_items ≡ some item
      → (cancel_work_item proc id a).1.state.work_items
        ≡ insert id (record item { is_open = false }) a.state.work_items
  unfolding cancel_work_item
  cancel_work_item-some id a item h = rw (h, cancel_work_item) refl

  -- `shut` at one key.
  shut_at : Bool → Option WorkItemState → Option WorkItemState
  unfolding shut
  shut_at true o = shut o
  shut_at false o = o

  cancel_work_item-get :
      (id k : ℕ) (a : Advancer)
      → get k (cancel_work_item proc id a).1.state.work_items
        ≡ shut_at (id == k) (get k a.state.work_items)
  unfolding shut shut_at
  cancel_work_item-get id k a = elim (Option-cases (get id a.state.work_items)) [
    | inl e ↦
        ap (λ x. get k x.state.work_items) (cancel_work_item-none id a e)
        ∙ (elim (Bool-cases (id == k)) [
          | inl q ↦
              let same = subst (λ j. get j a.state.work_items ≡ none) ((==_iff id k).0 q) e in
              rw (q, same) refl
          | inr q ↦ rw q refl
        ])
    | inr (item, e) ↦
        ap (get k) (cancel_work_item-some id a item e)
        ∙ get-insert id k (record item { is_open = false }) a.state.work_items
        ∙ (elim (Bool-cases (id == k)) [
          | inl q ↦
              let same = subst (λ j. get j a.state.work_items ≡ some item) ((==_iff id k).0 q) e in
              rw (q, same) refl
          | inr q ↦ rw q refl
        ])
  ]

  shut_at_or :
      (b c : Bool) (o : Option WorkItemState) → shut_at c (shut_at b o) ≡ shut_at (b || c) o
  unfolding shut_at shut
  shut_at_or true true none = refl
  shut_at_or true true (some item) = refl
  shut_at_or true false o = refl
  shut_at_or false c o = refl

  shut-closed :
      (o : Option WorkItemState) (item : WorkItemState) → shut o ≡ some item → item.is_open ≡ false
  unfolding shut
  shut-closed none item h = cc
  shut-closed (some x) item h = sym (ap (λ y. y.is_open) (some-injective _ _ h))

  cancel_items-get :
      (ids : List ℕ) (k : ℕ) (a : Advancer)
      → get k (cancel_items proc ids a).state.work_items
        ≡ shut_at (contains ids k) (get k a.state.work_items)
  unfolding cancel_items shut_at
  cancel_items-get [] k a = refl
  cancel_items-get (id ∷ ids) k a =
      cancel_items-get ids k (cancel_work_item proc id a).1
      ∙ ap (shut_at (contains ids k)) (cancel_work_item-get id k a)
      ∙ shut_at_or (id == k) (contains ids k) (get k a.state.work_items)

  -- An item that is open after a cancellation was not cancelled.
  pub cancel_items-open :
      (ids : List ℕ) (k : ℕ) (a : Advancer) (item : WorkItemState)
      → get k (cancel_items proc ids a).state.work_items ≡ some item
      → item.is_open ≡ true
      → (contains ids k ≡ false) × (get k a.state.work_items ≡ some item)
  unfolding shut_at
  cancel_items-open ids k a item h o =
      still (contains ids k) refl (sym (cancel_items-get ids k a) ∙ h)
    where
      still :
          (b : Bool)
          → contains ids k ≡ b
          → shut_at b (get k a.state.work_items) ≡ some item
          → (contains ids k ≡ false) × (get k a.state.work_items ≡ some item)
      still true e s = cc (o, shut-closed (get k a.state.work_items) item s)
      still false e s = (e, s)

  withdraw_all :
      (a : Advancer)
      → ((withdraw_arms proc none a).state.timers ≡ [])
        × ((withdraw_arms proc none a).state.subscriptions ≡ [])
        × ((withdraw_arms proc none a).state.work_items ≡ a.state.work_items)
  unfolding withdraw_arms
  withdraw_all a = (filter_none a.state.timers, filter_none a.state.subscriptions, refl)

  -- A terminated instance has no token, no scope, no timer, no subscription and no queued move.
  pub terminate-clears :
      (a : Advancer)
      → ((terminate proc a).state.status ≡ terminated)
        × ((terminate proc a).state.tokens ≡ [])
        × ((terminate proc a).state.scopes ≡ [])
        × ((terminate proc a).state.timers ≡ [])
        × ((terminate proc a).state.subscriptions ≡ [])
        × ((terminate proc a).queue ≡ [])
  unfolding terminate
  terminate-clears a =
      let w =
        withdraw_all (cancel_items proc (keys (filter (λ e. e.1.is_open) a.state.work_items)) a) in
      (refl, refl, refl, w.0, w.1, refl)

  -- No work item of a terminated instance is open.
  pub terminate-closes :
      (a : Advancer) (k : ℕ) (item : WorkItemState)
      → get k (terminate proc a).state.work_items ≡ some item
      → item.is_open ≡ false
  unfolding terminate shut_at
  terminate-closes a k item h =
      let ids = keys (filter (λ e. e.1.is_open) a.state.work_items) in
      let kept = (withdraw_all (cancel_items proc ids a)).2 in
      still (contains ids k) refl (sym (cancel_items-get ids k a) ∙ ap (get k) (sym kept) ∙ h)
    where
      still :
          (b : Bool)
          → contains (keys (filter (λ e. e.1.is_open) a.state.work_items)) k ≡ b
          → shut_at b (get k a.state.work_items) ≡ some item
          → item.is_open ≡ false
      still true e s = shut-closed (get k a.state.work_items) item s
      still false e s = elim (Bool-cases item.is_open) [
        | inl o ↦ cc (e, contains-keys (λ x. x.1.is_open) k item a.state.work_items s o)
        | inr o ↦ o
      ]
