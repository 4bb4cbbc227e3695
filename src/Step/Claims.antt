-- ===== src/Step/Claims.antt =====
-- What a token is held for: the timers, subscriptions, open work items and scopes of the state that
-- name it, the wait that each of them needs, and the states in which every token waits as they need;
-- after `ArmedTimersHaveLiveTokens` of spec/TimerTeardown.tla.
pub mod Lookup
pub mod Update
pub mod Queue
pub mod Less
pub mod Reduce
pub mod Halt
pub mod Stop
pub mod Moves
pub mod Join
pub mod Install
pub mod Arms
pub mod Nodes
pub mod Enter
pub mod Release
pub mod Boundary
pub mod Catcher
pub mod Closing
pub mod Items
pub mod Arrivals
pub mod Resume
pub mod Repair
pub mod Commands
pub mod History
pub mod Dangling
use rbpmn.Common.{
  ℕ, ◌≡◌, ◌≢◌, ◌<◌, ◌⊎◌, inl, inr, Bool, true, false, Option, none, some, List, [], ◌∷◌, Among,
  first, later, ◌==◌,
}
use rbpmn.Common.Maps.{Map, get, insert, remove}
use rbpmn.Common.Maps.Order.{IsOrdered}
use rbpmn.State.{
  InstanceState, TokenId, TimerId, SubscriptionId, WorkItemId, ScopeId, Token, WaitKind, join,
  work_item, timer, message, event_gateway, TimerState, SubscriptionState, WorkItemState,
  ScopeState,
}
use rbpmn.Step.Outcome.{Advancer, Move}

pub data Claim : Type 0 where
  timer_of : TimerId → Claim
  subscription_of : SubscriptionId → Claim
  item_of : WorkItemId → Claim
  host_of : ScopeId → Claim

-- The maps that name tokens.
pub record Holdings : Type 0 where
  pub timers : Map TimerState
  pub subscriptions : Map SubscriptionState
  pub work_items : Map WorkItemState
  pub scopes : Map ScopeState

abbrev pub holdings : InstanceState → Holdings
holdings s = record {
  timers = s.timers;
  subscriptions = s.subscriptions;
  work_items = s.work_items;
  scopes = s.scopes;
}

-- `Names h k c`: the entry of the claim `c` names the token `k`.
pub data Names (h : Holdings) (k : TokenId) : Claim → Type 0 where
  names_timer :
      (id : TimerId) (t : TimerState)
      → Among (id, t) h.timers
      → t.token ≡ k
      → Names h k (timer_of id)
  names_subscription :
      (id : SubscriptionId) (t : SubscriptionState)
      → Among (id, t) h.subscriptions
      → t.token ≡ k
      → Names h k (subscription_of id)
  names_item :
      (id : WorkItemId) (t : WorkItemState)
      → get id h.work_items ≡ some t
      → t.is_open ≡ true
      → t.token ≡ k
      → Names h k (item_of id)
  names_host :
      (id : ScopeId) (t : ScopeState)
      → Among (id, t) h.scopes
      → t.token ≡ k
      → Names h k (host_of id)

-- The waits that each kind of claim needs: a timer is its own catch's, a host's boundary or a
-- gateway's alternative; an item and a scope are what their token waits for.
abbrev pub Fits : Claim → WaitKind → Type 0
Fits (timer_of id) (timer k) = k ≡ id
Fits (timer_of id) (work_item _) = Unit
Fits (timer_of id) (message _) = Unit
Fits (timer_of id) (WaitKind.scope _) = Unit
Fits (timer_of id) event_gateway = Unit
Fits (subscription_of id) (work_item _) = Unit
Fits (subscription_of id) (message _) = Unit
Fits (subscription_of id) (WaitKind.scope _) = Unit
Fits (subscription_of id) event_gateway = Unit
Fits (item_of id) (work_item k) = k ≡ id
Fits (host_of id) (WaitKind.scope k) = k ≡ id
Fits _ _ = ⊥

abbrev pub IsHost : Claim → Type 0
IsHost (host_of _) = Unit
IsHost _ = ⊥

-- The token is parked and waits as the claim needs; a scope may outlive its host's token.
abbrev pub Holds : Claim → Option Token → Type 0
Holds c o = elim o [ none ↦ IsHost c | some t ↦ Fits c t.wait ]

abbrev pub Unnamed : Holdings → TokenId → Type 0
Unnamed h k = (c : Claim) → ¬ Names h k c

abbrev pub Unmoved : List Move → TokenId → Type 0
Unmoved queue k = (m : Move) → Among m queue → m.token ≢ k

-- No two moves of the queue are of one token.
abbrev pub Apart : List Move → Type 0
Apart [] = Unit
Apart (m ∷ queue) = Unmoved queue m.token × Apart queue

abbrev pub IsExempt : Option TokenId → TokenId → Type 0
IsExempt none k = ⊥
IsExempt (some j) k = j ≡ k

-- A token that moves is named by nothing and parked nowhere.
pub record Free (h : Holdings) (tokens : Map Token) (next : ℕ) (k : TokenId) : Type 0 where
  pub unparked : get k tokens ≡ none
  pub unnamed : Unnamed h k
  pub below : k < next

-- A decision that a repair will ask again is named by nothing and does not move.
pub record Pending (h : Holdings) (next : ℕ) (queue : List Move) (k : TokenId) : Type 0 where
  pub unnamed : Unnamed h k
  pub unmoved : Unmoved queue k
  pub below : k < next

-- Every claim on a token but the exempt one holds, no id in use is still to be given out, and what
-- moves, or will be asked again, is free.
pub record Sound (x : Option TokenId) (h : Holdings) (tokens : Map Token) (next : ℕ)
    (queue : List Move) (reask : List TokenId) : Type 0 where
  pub held : (k : TokenId) (c : Claim) → Names h k c → ¬ IsExempt x k → Holds c (get k tokens)
  pub known : (k : TokenId) (c : Claim) → Names h k c → k < next
  pub minted : (k : TokenId) (t : Token) → get k tokens ≡ some t → k < next
  pub loose : (m : Move) → Among m queue → Free h tokens next m.token
  pub apart : Apart queue
  pub asked : (k : TokenId) → Among k reask → Pending h next queue k
  pub ordered : IsOrdered tokens

abbrev pub SoundBut : Option TokenId → Advancer → Type 0
SoundBut x a = Sound x (holdings a.state) a.state.tokens a.state.next_token a.queue a.reask

abbrev pub IsSound : Advancer → Type 0
IsSound a = SoundBut none a

-- The invariant of a state between two commands.
abbrev pub IsTended : InstanceState → Type 0
IsTended s = Sound none (holdings s) s.tokens s.next_token [] []

-- A token on its way: free, and not one that the queue or a pending decision waits on.
pub record Hand (h : Holdings) (tokens : Map Token) (next : ℕ) (queue : List Move)
    (reask : List TokenId) (k : TokenId) : Type 0 where
  pub free : Free h tokens next k
  pub unmoved : Unmoved queue k
  pub unasked : (j : TokenId) → Among j reask → j ≢ k

abbrev pub HasHand : TokenId → Advancer → Type 0
HasHand k a = Hand (holdings a.state) a.state.tokens a.state.next_token a.queue a.reask k
