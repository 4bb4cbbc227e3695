-- ===== src/State.antt =====
-- state.rs: the runtime state of an instance. The maps are in id order. The six id allocators are
-- `u64`; each counts allocations one by one and is unbounded here.
pub mod Rows
use rbpmn.Common.{
  ℕ, suc, ◌+◌, String, Bool, true, false, Option, none, some, List, [], ◌∷◌, ◌++◌, filter, ◌==◌,
  zero, length,
}
use rbpmn.Common.Maps.{Map, insert, keys}
use rbpmn.Json.{Value, null}
use rbpmn.Process.{NodeIx, FlowIx, TimerDue, WorkKind}

abbrev pub TokenId : Type 0
TokenId = ℕ

abbrev pub WorkItemId : Type 0
WorkItemId = ℕ

abbrev pub TimerId : Type 0
TimerId = ℕ

abbrev pub SubscriptionId : Type 0
SubscriptionId = ℕ

abbrev pub ScopeId : Type 0
ScopeId = ℕ

abbrev pub root : ScopeId
root = 0

pub data InstanceStatus : Type 0 where
  created active completed terminated failed : InstanceStatus

pub data Halt : Type 0 where
  in_flight : Option FlowIx → Halt
  awaiting_decision : Halt

pub data WaitKind : Type 0 where
  join : FlowIx → WaitKind
  work_item : WorkItemId → WaitKind
  timer : TimerId → WaitKind
  message : SubscriptionId → WaitKind
  event_gateway : WaitKind
  incident : WaitKind
  halted : Halt → WaitKind
  scope : ScopeId → WaitKind
  decision : WaitKind

pub record Token : Type 0 where
  pub node : NodeIx
  pub scope : ScopeId
  pub wait : WaitKind

pub record ScopeState : Type 0 where
  pub element : NodeIx
  pub parent : ScopeId
  pub token : TokenId

pub record WorkItemState : Type 0 where
  pub element : NodeIx
  pub token : TokenId
  pub kind : WorkKind
  pub topic : String
  pub is_open : Bool

pub record TimerState : Type 0 where
  pub element : NodeIx
  pub token : TokenId
  pub due : TimerDue
  pub remaining : Option ℕ

pub record SubscriptionState : Type 0 where
  pub element : NodeIx
  pub token : TokenId
  pub message : String
  pub key : String

pub record InstanceState : Type 0 where
  pub status : InstanceStatus
  pub variables : Value
  pub tokens : Map Token
  pub work_items : Map WorkItemState
  pub timers : Map TimerState
  pub subscriptions : Map SubscriptionState
  pub scopes : Map ScopeState
  pub next_token : ℕ
  pub next_work_item : ℕ
  pub next_timer : ℕ
  pub next_subscription : ℕ
  pub next_scope : ℕ
  pub next_incident : ℕ

-- `InstanceState::new`.
abbrev pub new : InstanceState
new = record {
  status = created;
  variables = null;
  tokens = [];
  work_items = [];
  timers = [];
  subscriptions = [];
  scopes = [];
  next_token = 0;
  next_work_item = 0;
  next_timer = 0;
  next_subscription = 0;
  next_scope = 1;
  next_incident = 0;
}

abbrev pub is_active : InstanceStatus → Bool
is_active active = true
is_active _ = false

-- The ids of the scopes right below `parent`, in id order.
unfoldable pub children : InstanceState → ScopeId → List ScopeId
children s parent = keys (filter (λ e. e.1.parent == parent) s.scopes)

-- The worklist loop of `scope_subtree`: `pending` is what `out` holds from `i` on.
unfoldable pub subtree_loop : ℕ → InstanceState → List ScopeId → List ScopeId
subtree_loop zero s pending = []
subtree_loop (suc fuel) s [] = []
subtree_loop (suc fuel) s (parent ∷ pending) =
    parent ∷ subtree_loop fuel s (pending ++ children s parent)

-- Every scope in `scope`'s subtree, itself included. Each scope is visited once, so one round for
-- each open scope and one for `scope` are enough.
unfoldable pub scope_subtree : InstanceState → ScopeId → List ScopeId
scope_subtree s top = subtree_loop (suc (suc (length s.scopes))) s (top ∷ [])

-- The incident that a failed instance is frozen on is the last one minted.
unfoldable pub open_incident_of : InstanceStatus → ℕ → Option ℕ
open_incident_of failed (suc n) = some n
open_incident_of _ _ = none

unfoldable pub open_incident : InstanceState → Option ℕ
open_incident s = open_incident_of s.status s.next_incident

-- The allocators hand out the next id with the state after.
abbrev pub next_token_id : InstanceState → TokenId × InstanceState
next_token_id s = (s.next_token, record s { next_token = s.next_token + 1 })

abbrev pub alloc_incident : InstanceState → ℕ × InstanceState
alloc_incident s = (s.next_incident, record s { next_incident = s.next_incident + 1 })

abbrev pub alloc_work_item : WorkItemState → InstanceState → WorkItemId × InstanceState
alloc_work_item item s = (
  s.next_work_item,
  record s {
    next_work_item = s.next_work_item + 1;
    work_items = insert s.next_work_item item s.work_items;
  },
)

abbrev pub alloc_timer : TimerState → InstanceState → TimerId × InstanceState
alloc_timer t s = (
  s.next_timer,
  record s { next_timer = s.next_timer + 1; timers = insert s.next_timer t s.timers },
)

abbrev pub alloc_scope : ScopeState → InstanceState → ScopeId × InstanceState
alloc_scope c s = (
  s.next_scope,
  record s { next_scope = s.next_scope + 1; scopes = insert s.next_scope c s.scopes },
)

abbrev pub alloc_subscription : SubscriptionState → InstanceState → SubscriptionId × InstanceState
alloc_subscription sub s = (
  s.next_subscription,
  record s {
    next_subscription = s.next_subscription + 1;
    subscriptions = insert s.next_subscription sub s.subscriptions;
  },
)
