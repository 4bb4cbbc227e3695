-- ===== src/State/Rows.antt =====
-- The state from the rows that the engine stores and back, and the look-ups by element.
pub mod Roundtrip
use rbpmn.Common.{
  ℕ, suc, ◌+◌, Bool, Option, none, some, List, [], ◌∷◌, filter, find, ◌==◌, leb, if◌then◌else◌,
}
use rbpmn.Common.Maps.{Map, insert}
use rbpmn.Json.{Value}
use rbpmn.Process.{NodeIx}
use rbpmn.State.{
  InstanceStatus, InstanceState, Token, TokenId, WorkItemState, WorkItemId, TimerState, TimerId,
  SubscriptionState, SubscriptionId, ScopeState,
}

pub record Counters : Type 0 where
  pub next_token : ℕ
  pub next_work_item : ℕ
  pub next_timer : ℕ
  pub next_subscription : ℕ
  pub next_scope : ℕ
  pub next_incident : ℕ

abbrev pub counters : InstanceState → Counters
counters s = record {
  next_token = s.next_token;
  next_work_item = s.next_work_item;
  next_timer = s.next_timer;
  next_subscription = s.next_subscription;
  next_scope = s.next_scope;
  next_incident = s.next_incident;
}

-- `into_iter().collect()`: a later row of the same key overwrites an earlier one.
unfoldable pub collect_into {ℓ} : {V : Type ℓ} → Map V → List (ℕ × V) → Map V
collect_into m [] = m
collect_into m ((k, v) ∷ rows) = collect_into (insert k v m) rows

abbrev pub collect {ℓ} : {V : Type ℓ} → List (ℕ × V) → Map V
collect rows = collect_into [] rows

-- `next_scope.max(1)`.
abbrev pub at_least_one : ℕ → ℕ
at_least_one n = if leb 1 n then n else 1

unfoldable pub rehydrate :
    InstanceStatus
    → Value
    → List (ℕ × Token)
    → List (ℕ × WorkItemState)
    → List (ℕ × TimerState)
    → List (ℕ × SubscriptionState)
    → List (ℕ × ScopeState)
    → Counters
    → InstanceState
rehydrate status variables tokens work_items timers subscriptions scopes c = record {
  status = status;
  variables = variables;
  tokens = collect tokens;
  work_items = collect work_items;
  timers = collect timers;
  subscriptions = collect subscriptions;
  scopes = collect scopes;
  next_token = c.next_token;
  next_work_item = c.next_work_item;
  next_timer = c.next_timer;
  next_subscription = c.next_subscription;
  next_scope = at_least_one c.next_scope;
  next_incident = c.next_incident;
}

abbrev pub id_of {ℓ} : {V : Type ℓ} → Option (ℕ × V) → Option ℕ
id_of none = none
id_of (some (id, _)) = some id

abbrev pub open_work_items : InstanceState → List (WorkItemId × WorkItemState)
open_work_items s = filter (λ e. e.1.is_open) s.work_items

unfoldable pub open_work_item_at : InstanceState → NodeIx → Option WorkItemId
open_work_item_at s element = id_of (find (λ e. e.1.element == element) (open_work_items s))

unfoldable pub armed_timer_at : InstanceState → NodeIx → Option TimerId
armed_timer_at s element = id_of (find (λ e. e.1.element == element) s.timers)

unfoldable pub armed_subscription_at : InstanceState → NodeIx → Option SubscriptionId
armed_subscription_at s element = id_of (find (λ e. e.1.element == element) s.subscriptions)
