-- ===== src/Step/Claims/Install.antt =====
-- A new timer, subscription, work item or scope, and the token that it is for.
use mathlib.Core.Option.{some-injective}
use mathlib.Core.Path.{subst}
use rbpmn.Common.{ℕ, ◌≡◌, ◌≢◌, refl, sym, ap, ◌∙◌, ◌⊎◌, inl, inr, none, some, List, Among}
use rbpmn.Common.Maps.{Map, get, insert, Among-insert}
use rbpmn.State.{
  TokenId, Token, WaitKind, work_item, message, event_gateway, TimerState, SubscriptionState,
  WorkItemState, ScopeState,
}
use rbpmn.Step.Outcome.{Advancer, Move}
use rbpmn.Step.Claims.{
  Claim, timer_of, subscription_of, item_of, host_of, Holdings, Names, names_timer,
  names_subscription, names_item, names_host, Fits, Holds, IsSound, HasHand, Sound, Hand,
}
use rbpmn.Step.Claims.Lookup.{same_or_not, get-insert_same, get-insert_other}
use rbpmn.Step.Claims.Update.{put, grow, exempt, Unmoved-of}
use rbpmn.Step.Claims.Stop.{Stoppable}

-- A wait that boundaries and alternatives are armed on.
abbrev pub TakesArms : WaitKind → Type 0
TakesArms (work_item _) = Unit
TakesArms (message _) = Unit
TakesArms (WaitKind.scope _) = Unit
TakesArms event_gateway = Unit
TakesArms _ = ⊥

pub takes_timer : (id : ℕ) (w : WaitKind) → TakesArms w → Fits (timer_of id) w
takes_timer id (work_item _) h = tt
takes_timer id (message _) h = tt
takes_timer id (WaitKind.scope _) h = tt
takes_timer id event_gateway h = tt
takes_timer id _ h = absurd h

pub takes_subscription : (id : ℕ) (w : WaitKind) → TakesArms w → Fits (subscription_of id) w
takes_subscription id (work_item _) h = tt
takes_subscription id (message _) h = tt
takes_subscription id (WaitKind.scope _) h = tt
takes_subscription id event_gateway h = tt
takes_subscription id _ h = absurd h

-- A parked token that arms can be put on.
pub record Docked (a : Advancer) (k : TokenId) : Type 0 where
  pub at : Token
  pub parked : get k a.state.tokens ≡ some at
  pub takes : TakesArms at.wait
  pub unasked : (j : TokenId) → Among j a.reask → j ≢ k

-- The tokens that an incident can be raised on: one in hand, one that takes arms.
pub hand-Stoppable : {k : TokenId} {a : Advancer} → HasHand k a → Stoppable a k
hand-Stoppable h = record {
  below = h.free.below;
  unmoved = h.unmoved;
  unhosted = λ s e n. h.free.unnamed (host_of s) n;
}

pub parked-Stoppable :
    {k : TokenId} {t : Token} {a : Advancer}
    → IsSound a
    → get k a.state.tokens ≡ some t
    → Stoppable a k
parked-Stoppable {k} {t} s e = record {
  below = s.minted k t e;
  unmoved = Unmoved-of s e;
  unhosted = λ q n m. cc (e, n);
}

-- `NewIn h h' k new`: what `h'` names beyond `h` is `k`, by the claim `new`.
abbrev pub NewIn : Holdings → Holdings → TokenId → Claim → Type 0
NewIn h h' k new = (j : TokenId) (c : Claim) → Names h' j c → (j ≡ k) × (c ≡ new) ⊎ Names h j c

module _ {h : Holdings} where
  pub new_timer :
      (id : ℕ) (t : TimerState)
      → NewIn h (record h { timers = insert id t h.timers }) t.token (timer_of id)
  new_timer id t j c (names_timer i u m q) = elim (Among-insert id t h.timers m) [
    | inl e ↦ inl (sym q ∙ ap (λ x. x.1.token) e, ap (λ x. timer_of x.0) e)
    | inr n ↦ inr (names_timer i u n q)
  ]
  new_timer id t j c (names_subscription i u m q) = inr (names_subscription i u m q)
  new_timer id t j c (names_item i u g o q) = inr (names_item i u g o q)
  new_timer id t j c (names_host i u m q) = inr (names_host i u m q)

  pub new_subscription :
      (id : ℕ) (t : SubscriptionState)
      → NewIn h
          (record h { subscriptions = insert id t h.subscriptions })
          t.token
          (subscription_of id)
  new_subscription id t j c (names_timer i u m q) = inr (names_timer i u m q)
  new_subscription id t j c (names_subscription i u m q) =
      elim (Among-insert id t h.subscriptions m) [
        | inl e ↦ inl (sym q ∙ ap (λ x. x.1.token) e, ap (λ x. subscription_of x.0) e)
        | inr n ↦ inr (names_subscription i u n q)
      ]
  new_subscription id t j c (names_item i u g o q) = inr (names_item i u g o q)
  new_subscription id t j c (names_host i u m q) = inr (names_host i u m q)

  pub new_item :
      (id : ℕ) (t : WorkItemState)
      → NewIn h (record h { work_items = insert id t h.work_items }) t.token (item_of id)
  new_item id t j c (names_timer i u m q) = inr (names_timer i u m q)
  new_item id t j c (names_subscription i u m q) = inr (names_subscription i u m q)
  new_item id t j c (names_item i u g o q) = elim (same_or_not id i) [
    | inl e ↦
        let found = subst (λ x. get x (insert id t h.work_items) ≡ some u) (sym e) g in
        let same = some-injective t u (sym (get-insert_same id t h.work_items) ∙ found) in
        inl (sym q ∙ ap (λ x. x.token) (sym same), ap item_of (sym e))
    | inr e ↦ inr (names_item i u (sym (get-insert_other id i t h.work_items e) ∙ g) o q)
  ]
  new_item id t j c (names_host i u m q) = inr (names_host i u m q)

  pub new_scope :
      (id : ℕ) (t : ScopeState)
      → NewIn h (record h { scopes = insert id t h.scopes }) t.token (host_of id)
  new_scope id t j c (names_timer i u m q) = inr (names_timer i u m q)
  new_scope id t j c (names_subscription i u m q) = inr (names_subscription i u m q)
  new_scope id t j c (names_item i u g o q) = inr (names_item i u g o q)
  new_scope id t j c (names_host i u m q) = elim (Among-insert id t h.scopes m) [
    | inl e ↦ inl (sym q ∙ ap (λ x. x.1.token) e, ap (λ x. host_of x.0) e)
    | inr n ↦ inr (names_host i u n q)
  ]

module _ {h : Holdings} {tokens : Map Token} {next : ℕ} {queue : List Move}
    {reask : List TokenId} where
  -- The token in hand is parked together with the first entry that names it.
  pub install :
      {h' : Holdings} (k : TokenId) (t : Token) (new : Claim)
      → Sound none h tokens next queue reask
      → Hand h tokens next queue reask k
      → NewIn h h' k new
      → Fits new t.wait
      → Sound none h' (insert k t tokens) next queue reask
  install k t new s hand one fit =
      put k t
        (grow k new (exempt k s) one (λ y. absurd (y refl)) hand.unmoved hand.unasked
          hand.free.below)
        (λ j y. sym y)
        (λ c n. elim (one k c n) [
          | inl (_, e) ↦ subst (λ d. Fits d t.wait) (sym e) fit
          | inr o ↦ absurd (hand.free.unnamed c o)
        ])
        hand.unmoved hand.free.below

  -- One more entry that names a parked token.
  pub attach :
      {h' : Holdings} {t : Token} (k : TokenId) (new : Claim)
      → Sound none h tokens next queue reask
      → get k tokens ≡ some t
      → ((j : TokenId) → Among j reask → j ≢ k)
      → NewIn h h' k new
      → Fits new t.wait
      → Sound none h' tokens next queue reask
  attach {h'} {t} k new s e unasked one fit =
      grow k new s one (λ y. subst (Holds new) (sym e) fit) (Unmoved-of s e) unasked
        (s.minted k t e)
