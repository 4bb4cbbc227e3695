-- ===== src/Step/Withdraw.antt =====
-- The methods of `Advancer` that take work, arms, tokens and scopes away, and the freeze.
pub mod Entries
pub mod Subtree
pub mod Keeps
pub mod Freeze
pub mod Clears
pub mod Emptied
use rbpmn.Common.{
  ℕ, String, Bool, true, false, not, ◌&&◌, ◌||◌, Option, none, some, List, [], ◌∷◌, ◌++◌, any,
  filter, map, ◌==◌, if◌then◌else◌,
}
use rbpmn.Common.Maps.{Map, get, insert, keys, retain, remove}
use rbpmn.Process.{NodeIx, ExecutableProcess, node_id}
use rbpmn.State.{
  InstanceState, TokenId, WorkItemId, TimerId, SubscriptionId, ScopeId, Token, WorkItemState,
  TimerState, SubscriptionState, WaitKind, in_flight, awaiting_decision, incident, halted, decision,
  terminated, failed, scope_subtree, alloc_incident,
}
use rbpmn.Event.{
  Event, work_item_cancelled, timer_cancelled, subscription_cancelled, incident_raised,
  instance_terminated,
}
use rbpmn.Step.Outcome.{Advancer, Move, push_event}

abbrev pub contains : List ℕ → ℕ → Bool
contains ids k = any (λ j. j == k) ids

-- `token.is_none_or(|tok| t.token == tok)`.
abbrev pub is_attached : Option TokenId → TokenId → Bool
is_attached none t = true
is_attached (some token) t = t == token

-- The ids of the open work items of one token.
abbrev pub open_items_of : TokenId → Map WorkItemState → List WorkItemId
open_items_of token m = keys (filter (λ e. e.1.is_open && e.1.token == token) m)

-- A pending decision halts where it stands.
abbrev pub halt_decision : Token → Token
halt_decision t = record t {
  wait = elim t.wait [ decision ↦ halted awaiting_decision | other ↦ other ];
}

-- The queue, halted: each move parked at its target with the flow it was on.
unfoldable pub halt_moves : List Move → Map Token → Map Token
halt_moves [] tokens = tokens
halt_moves (mv ∷ moves) tokens = halt_moves moves (
    insert mv.token (record { node = mv.node; scope = mv.scope; wait = halted (in_flight mv.via) })
      tokens)

abbrev pub owned_scope : Option Token → Option ScopeId
owned_scope none = none
owned_scope (some t) = elim t.wait [ WaitKind.scope child ↦ some child | _ ↦ none ]

abbrev pub scope_or : ScopeId → Option Token → ScopeId
scope_or s none = s
scope_or s (some t) = t.scope

module _ (proc : ExecutableProcess) where
  -- Closes an item because the process took it away; `false` where there is none.
  unfoldable pub cancel_work_item : WorkItemId → Advancer → Bool × Advancer
  cancel_work_item id a = elim (get id a.state.work_items) [
    | none ↦ (false, a)
    | some item ↦ (
      true,
      push_event (work_item_cancelled id (node_id proc item.element)) (record a {
        state = record (a.state) {
          work_items = insert id (record item { is_open = false }) a.state.work_items;
        };
      }),
    )
  ]

  unfoldable pub cancel_items : List WorkItemId → Advancer → Advancer
  cancel_items [] a = a
  cancel_items (id ∷ ids) a = cancel_items ids (cancel_work_item id a).1

  unfoldable pub timer_events : Map TimerState → List Event
  timer_events = map λ e. timer_cancelled e.0 (node_id proc e.1.element)

  unfoldable pub subscription_events : Map SubscriptionState → List Event
  subscription_events = map λ e. subscription_cancelled e.0 (node_id proc e.1.element) e.1.message

  -- The timers, then the subscriptions, of one token or of all, each in id order.
  unfoldable pub withdraw_arms : Option TokenId → Advancer → Advancer
  withdraw_arms token a =
      let gone_timers = filter (λ e. is_attached token e.1.token) a.state.timers in
      let gone_subs = filter (λ e. is_attached token e.1.token) a.state.subscriptions in
      record a {
        state = record (a.state) {
          timers = retain (λ _ t. not (is_attached token t.token)) a.state.timers;
          subscriptions = retain (λ _ t. not (is_attached token t.token)) a.state.subscriptions;
        };
        events = a.events ++ (timer_events gone_timers ++ subscription_events gone_subs);
      }

  abbrev pub cancel_attachments : TokenId → Advancer → Advancer
  cancel_attachments token = withdraw_arms (some token)

  -- One reaped token: its open items, its arms, and the token.
  unfoldable pub reap : TokenId → Advancer → Advancer
  reap token a =
      let b =
        withdraw_arms (some token) (cancel_items (open_items_of token a.state.work_items) a) in
      record b { state = record (b.state) { tokens = remove token b.state.tokens } }

  unfoldable pub reap_all : List TokenId → Advancer → Advancer
  reap_all [] a = a
  reap_all (t ∷ ts) a = reap_all ts (reap t a)

  -- Everything inside `top` and its nested scopes; `top` itself is the caller's to close.
  unfoldable pub tear_down_scope : ScopeId → Advancer → Advancer
  tear_down_scope top a =
      let doomed = scope_subtree a.state top in
      let b =
        reap_all (keys (filter (λ e. contains doomed e.1.scope) a.state.tokens))
          (record a { queue = filter (λ m. not (contains doomed m.scope)) a.queue }) in
      record b {
        state = record (b.state) {
          scopes = retain (λ id _. id == top || not (contains doomed id)) b.state.scopes;
        };
      }

  -- Tears a scope down and drops its entry.
  unfoldable pub discard_scope : Option ScopeId → Advancer → Advancer
  discard_scope none a = a
  discard_scope (some child) a =
      let b = tear_down_scope child a in
      record b { state = record (b.state) { scopes = remove child b.state.scopes } }

  -- `terminate`: every open item and every arm, every token, scope and move.
  unfoldable pub terminate : Advancer → Advancer
  terminate a =
      let b =
        withdraw_arms none (cancel_items (keys (filter (λ e. e.1.is_open) a.state.work_items)) a) in
      push_event instance_terminated (record b {
        queue = [];
        state = record (b.state) { tokens = []; scopes = []; status = terminated };
      })

  -- The freeze on an incident: the token parked as its cause, everything else halted.
  unfoldable pub freeze : TokenId → NodeIx → Option String → Option String → Advancer → Advancer
  freeze token element code detail a =
      let b = cancel_attachments token a in
      let c = cancel_items (open_items_of token b.state.work_items) b in
      let d = discard_scope (owned_scope (get token c.state.tokens)) c in
      let at = scope_or d.scope (get token d.state.tokens) in
      let parked =
        insert token (record { node = element; scope = at; wait = incident }) d.state.tokens in
      let pending = map (λ e. (e.0, halt_decision e.1)) parked in
      let (n, s) =
        alloc_incident
          (record (d.state) { tokens = halt_moves d.queue pending; status = failed }) in
      push_event (incident_raised (node_id proc element) code detail n)
        (record d { queue = []; state = s })
