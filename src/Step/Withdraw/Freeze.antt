-- ===== src/Step/Withdraw/Freeze.antt =====
-- What a freeze on an incident keeps, and what it takes away.
use rbpmn.Common.{
  Bool-cases, ==_iff, ℕ, ◌≡◌, refl, ap, ◌∙◌, ◌⊎◌, inl, inr, Bool, true, false, not, Option, none,
  some, is_some, String, List, [], ◌∷◌, arith, map, filter, any, ◌==◌,
}
use rbpmn.Common.Maps.{Map, get, insert, get-insert}
use rbpmn.Process.{NodeIx, ExecutableProcess}
use rbpmn.State.{InstanceState, TokenId, ScopeId, Token, failed}
use rbpmn.Step.Outcome.{Advancer, Move}
use rbpmn.Step.Withdraw.{
  freeze, halt_moves, halt_decision, owned_scope, cancel_items, cancel_attachments, withdraw_arms,
  open_items_of, is_attached, discard_scope, cancel_work_item, reap, reap_all, tear_down_scope,
}
use rbpmn.Step.Withdraw.Keeps.{cancel_items-Same, withdraw_arms-Same, Same-trans}

-- Something is stored under a key.
unfoldable pub holds : {V : Type 0} → ℕ → Map V → Bool
holds k m = is_some (get k m)

holds-insert :
    {V : Type 0} (k j : ℕ) (v : V) (m : Map V) → holds k m ≡ true → holds k (insert j v m) ≡ true
unfolding holds
holds-insert k j v m h = rw (get-insert j k v m) (ground arith)

insert-holds :
    {V : Type 0} (k j : ℕ) (v : V) (m : Map V) → (j == k) ≡ true → holds k (insert j v m) ≡ true
unfolding holds
insert-holds k j v m h = rw (get-insert j k v m) (ground arith)

get-map : (k : ℕ) (m : Map Token) → holds k (map (λ e. (e.0, halt_decision e.1)) m) ≡ holds k m
unfolding holds
get-map k [] = refl
get-map k ((j, t) ∷ m) = ground (arith, get-map k m)

halt_moves-holds :
    (k : ℕ) (q : List Move) (m : Map Token) → holds k m ≡ true → holds k (halt_moves q m) ≡ true
unfolding halt_moves
halt_moves-holds k [] m h = h
halt_moves-holds k (mv ∷ q) m h = halt_moves-holds k q _ (holds-insert k mv.token _ m h)

halt_moves-queued :
    (k : ℕ) (q : List Move) (m : Map Token)
    → any (λ mv. mv.token == k) q ≡ true
    → holds k (halt_moves q m) ≡ true
unfolding halt_moves
halt_moves-queued k [] m h = cc
halt_moves-queued k (mv ∷ q) m h = elim (Bool-cases (mv.token == k)) [
  | inl e ↦ halt_moves-holds k q _ (insert-holds k mv.token _ m e)
  | inr e ↦ halt_moves-queued k q _ (ground arith)
]

-- Parked or moving before, parked after.
frozen-holds :
    {k token : TokenId} {m n : Map Token} (t : Token) (q : List Move) {r : List Move}
    → m ≡ n
    → q ≡ r
    → (holds k n ≡ true) ⊎ ((any (λ mv. mv.token == k) r ≡ true) ⊎ (token ≡ k))
    → holds k (halt_moves q (map (λ e. (e.0, halt_decision e.1)) (insert token t m))) ≡ true
frozen-holds {k = k} {token = token} {m = m} t q p s (inl h) =
    halt_moves-holds k q _
      (get-map k (insert token t m) ∙ holds-insert k token t m (ap (holds k) p ∙ h))
frozen-holds {k = k} {token = token} {m = m} t q p s (inr (inl h)) =
    halt_moves-queued k q _ (ap (any (λ mv. mv.token == k)) s ∙ h)
frozen-holds {k = k} {token = token} {m = m} t q p s (inr (inr h)) =
    halt_moves-holds k q _
      (get-map k (insert token t m) ∙ insert-holds k token t m ((==_iff token k).1 h))

-- No timer and no subscription of a token.
pub record Unarmed (token : TokenId) (s : InstanceState) : Type 0 where
  pub no_timer : any (λ e. e.1.token == token) s.timers ≡ false
  pub no_subscription : any (λ e. e.1.token == token) s.subscriptions ≡ false

any-filter :
    {A : Type 0} (p q : A → Bool) (xs : List A) → any p xs ≡ false → any p (filter q xs) ≡ false
any-filter p q [] h = h
any-filter p q (x ∷ xs) h = ground (arith, any-filter p q xs)

any-filter-not :
    {A : Type 0} (p : A → Bool) (xs : List A) → any p (filter (λ x. not (p x)) xs) ≡ false
any-filter-not p [] = refl
any-filter-not p (x ∷ xs) = ground (arith, any-filter-not p xs)

module _ (proc : ExecutableProcess) (token : TokenId) where
  withdraw-Unarmed : (a : Advancer) → Unarmed token (withdraw_arms proc (some token) a).state
  unfolding withdraw_arms
  withdraw-Unarmed a = record {
    no_timer = any-filter-not (λ e. e.1.token == token) a.state.timers;
    no_subscription = any-filter-not (λ e. e.1.token == token) a.state.subscriptions;
  }

  cancel_work_item-timers :
      (id : ℕ) (a : Advancer) → (cancel_work_item proc id a).1.state.timers ≡ a.state.timers
  unfolding cancel_work_item
  cancel_work_item-timers id a = ground arith

  cancel_work_item-subscriptions :
      (id : ℕ) (a : Advancer)
      → (cancel_work_item proc id a).1.state.subscriptions ≡ a.state.subscriptions
  unfolding cancel_work_item
  cancel_work_item-subscriptions id a = ground arith

  cancel_work_item-Unarmed :
      (id : ℕ) (a : Advancer)
      → Unarmed token a.state
      → Unarmed token (cancel_work_item proc id a).1.state
  cancel_work_item-Unarmed id a u = record {
    no_timer = ap (any (λ e. e.1.token == token)) (cancel_work_item-timers id a) ∙ u.no_timer;
    no_subscription =
        ap (any (λ e. e.1.token == token)) (cancel_work_item-subscriptions id a)
        ∙ u.no_subscription;
  }

  cancel_items-Unarmed :
      (ids : List ℕ) (a : Advancer)
      → Unarmed token a.state
      → Unarmed token (cancel_items proc ids a).state
  unfolding cancel_items
  cancel_items-Unarmed [] a u = u
  cancel_items-Unarmed (id ∷ ids) a u = cancel_items-Unarmed ids _ (cancel_work_item-Unarmed id a u)

  reap-Unarmed :
      (t : TokenId) (a : Advancer) → Unarmed token a.state → Unarmed token (reap proc t a).state
  unfolding reap withdraw_arms
  reap-Unarmed t a u =
      let v = cancel_items-Unarmed (open_items_of t a.state.work_items) a u in
      record {
        no_timer = any-filter _ (λ e. not (is_attached (some t) e.1.token)) _ v.no_timer;
        no_subscription =
            any-filter _ (λ e. not (is_attached (some t) e.1.token)) _ v.no_subscription;
      }

  reap_all-Unarmed :
      (ts : List TokenId) (a : Advancer)
      → Unarmed token a.state
      → Unarmed token (reap_all proc ts a).state
  unfolding reap_all
  reap_all-Unarmed [] a u = u
  reap_all-Unarmed (t ∷ ts) a u = reap_all-Unarmed ts _ (reap-Unarmed t a u)

  discard_scope-Unarmed :
      (c : Option ScopeId) (a : Advancer)
      → Unarmed token a.state
      → Unarmed token (discard_scope proc c a).state
  unfolding discard_scope tear_down_scope
  discard_scope-Unarmed none a u = u
  discard_scope-Unarmed (some c) a u =
      let v = reap_all-Unarmed _ _ u in
      record { no_timer = v.no_timer; no_subscription = v.no_subscription }

  pub discard_scope-none :
      (a : Advancer) (c : Option ScopeId) → c ≡ none → discard_scope proc c a ≡ a
  unfolding discard_scope
  discard_scope-none a none h = refl
  discard_scope-none a (some x) h = cc

  -- A freeze leaves the instance failed, with an empty queue, and with no timer and no subscription
  -- of the token that it is frozen on.
  pub freeze-stops :
      (ix : NodeIx) (c d : Option String) (a : Advancer)
      → ((freeze proc token ix c d a).state.status ≡ failed)
        × ((freeze proc token ix c d a).queue ≡ [])
        × Unarmed token (freeze proc token ix c d a).state
  unfolding freeze
  freeze-stops ix c d a =
      let b = cancel_attachments proc token a in
      let items = open_items_of token b.state.work_items in
      let v =
        discard_scope-Unarmed (owned_scope (get token (cancel_items proc items b).state.tokens))
          (cancel_items proc items b) (cancel_items-Unarmed items b (withdraw-Unarmed a)) in
      (refl, refl, record { no_timer = v.no_timer; no_subscription = v.no_subscription })

  -- Where the frozen token is not the host of an open subprocess, every token that was parked and
  -- every token of a queued move is parked after the freeze, and so is the frozen one.
  pub freeze-holds :
      (ix : NodeIx) (c d : Option String) (k : TokenId) (a : Advancer)
      → owned_scope (get token a.state.tokens) ≡ none
      → (holds k a.state.tokens ≡ true) ⊎ ((any (λ mv. mv.token == k) a.queue ≡ true) ⊎ (token ≡ k))
      → holds k (freeze proc token ix c d a).state.tokens ≡ true
  unfolding freeze
  freeze-holds ix c d k a o h =
      let b = cancel_attachments proc token a in
      let ids = open_items_of token b.state.work_items in
      let e = cancel_items proc ids b in
      let same =
        Same-trans (withdraw_arms-Same proc (some token) a) (cancel_items-Same proc ids b) in
      let gone =
        discard_scope-none e (owned_scope (get token e.state.tokens))
          (ap (λ m. owned_scope (get token m)) same.same_tokens ∙ o) in
      frozen-holds _ _ (ap (λ x. x.state.tokens) gone ∙ same.same_tokens)
        (ap (λ x. x.queue) gone ∙ same.same_queue) h
