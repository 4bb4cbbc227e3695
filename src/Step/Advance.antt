-- ===== src/Step/Advance.antt =====
-- The methods of `Advancer` that move tokens: leaving a node, joins, scopes that complete, and
-- entering a node by its kind.
pub mod Enter
use rbpmn.Common.{
  ℕ, zero, suc, String, Bool, true, false, not, ◌&&◌, ◌||◌, Option, none, some, is_some, is_none,
  List, [], ◌∷◌, ◌++◌, any, find, filter, map, ◌==◌, or_else, is_nil, if◌then◌else◌,
}
use rbpmn.Common.Maps.{Map, get, insert, keys, remove}
use rbpmn.Condition.{Expr, eval}
use rbpmn.Json.{Value}
use rbpmn.Process.{
  NodeIx, FlowIx, ExecutableProcess, ExecKind, Platform, start, end, terminate_end, task,
  business_rule, exclusive_gateway, parallel_gateway, error_boundary, timer_catch, message_catch,
  timer_boundary, message_boundary, event_based_gateway, sub_process, kind_of, node_id,
}
use rbpmn.State.{
  InstanceState, TokenId, ScopeId, Token, WaitKind, join, work_item, timer, message, event_gateway,
  decision, root, next_token_id, alloc_work_item, alloc_scope,
}
use rbpmn.Event.{flow_taken, work_item_created, decision_requested}
use rbpmn.Step.Outcome.{
  Advancer, Move, Run, ok, fault, ◌>>=◌, push_event, push_move, in_scope, started, completed,
  bad_gateway_target, boundary_entered, no_default_flow, no_arrival_flow, second_arrival,
  not_one_outgoing, completed_twice, no_parent_token, panicked,
}
use rbpmn.Step.Withdraw.{cancel_attachments, withdraw_arms, tear_down_scope, terminate}
use rbpmn.Step.Arm.{Arming, armed, frozen, broken, arm_timer, subscribe, arm_boundaries}

-- Parks a token at a node, in the scope of the move.
abbrev pub park : TokenId → NodeIx → WaitKind → Advancer → Advancer
park token ix wait a = record a {
  state = record (a.state) {
    tokens = insert token (record { node = ix; scope = a.scope; wait = wait }) a.state.tokens;
  };
}

abbrev pub unpark : TokenId → Advancer → Advancer
unpark token a = record a { state = record (a.state) { tokens = remove token a.state.tokens } }

-- No token of the scope remains, parked or in flight.
unfoldable pub scope_is_empty : ScopeId → Advancer → Bool
scope_is_empty s a =
    not (any (λ e. e.1.scope == s) a.state.tokens) && not (any (λ m. m.scope == s) a.queue)

abbrev pub is_join_via : FlowIx → WaitKind → Bool
is_join_via flow (join via) = via == flow
is_join_via flow _ = false

-- The token that waits at the join for `flow`, within one scope.
unfoldable pub arrived : NodeIx → ScopeId → Map Token → FlowIx → Option TokenId
arrived ix s tokens flow =
    elim (find (λ e. e.1.node == ix && e.1.scope == s && is_join_via flow e.1.wait) tokens) [
      | none ↦ none
      | some e ↦ some e.0
    ]

-- `collect::<Option<Vec<_>>>`: all of them or none.
unfoldable pub all_arrived : NodeIx → ScopeId → Map Token → List FlowIx → Option (List TokenId)
all_arrived ix s tokens [] = some []
all_arrived ix s tokens (f ∷ fs) = elim (arrived ix s tokens f) [
  | none ↦ none
  | some t ↦ elim (all_arrived ix s tokens fs) [ none ↦ none | some ts ↦ some (t ∷ ts) ]
]

unfoldable pub unpark_all : List TokenId → Advancer → Advancer
unpark_all [] a = a
unpark_all (t ∷ ts) a = unpark_all ts (unpark t a)

abbrev pub passes : Option Expr → Value → Bool
passes none variables = false
passes (some c) variables = eval c variables

abbrev pub is_flow : Option FlowIx → FlowIx → Bool
is_flow none f = false
is_flow (some d) f = d == f

module _ (proc : ExecutableProcess) where
  -- Takes one flow: the event, and a move to its target in the current scope.
  unfoldable pub leave : TokenId → FlowIx → Advancer → Advancer
  leave token flow a =
      push_move
        (record { token = token; node = (proc.flow flow).target; via = some flow; scope = a.scope })
        (push_event (flow_taken (proc.flow flow).id) a)

  unfoldable pub leave_by : List FlowIx → TokenId → Advancer → Run
  leave_by (flow ∷ []) token a = ok (leave token flow a)
  leave_by _ token a = fault not_one_outgoing a

  unfoldable pub leave_single : TokenId → NodeIx → Advancer → Run
  leave_single token ix a = leave_by (proc.node ix).outgoing token a

  -- The scope's entry goes, the host's arms are withdrawn, and its token leaves in the parent.
  unfoldable pub complete_scope : ScopeId → Advancer → Run
  complete_scope s a = elim (get s a.state.scopes) [
    | none ↦ fault completed_twice a
    | some closed ↦
        let b = record a { state = record (a.state) { scopes = remove s a.state.scopes } } in
        let c = completed proc closed.element (cancel_attachments proc closed.token b) in
        if is_none (get closed.token c.state.tokens)
        then fault no_parent_token c
        else leave_single closed.token closed.element
            (in_scope closed.parent (unpark closed.token c))
  ]

  unfoldable pub complete_scope_if_empty : ScopeId → Advancer → Run
  complete_scope_if_empty s a =
      if s == root || not (scope_is_empty s a) then ok a else complete_scope s a

  unfoldable pub join_full : Option (List TokenId) → NodeIx → Advancer → Run
  join_full none ix a = ok a
  join_full (some parked) ix a =
      let b = completed proc ix (started proc ix (unpark_all parked a)) in
      let (continuation, s) = next_token_id b.state in
      leave_single continuation ix (record b { state = s })

  -- Arrivals park; the join runs once every incoming flow holds a token of its scope.
  unfoldable pub enter_join : TokenId → NodeIx → Option FlowIx → Advancer → Run
  enter_join token ix none a = fault no_arrival_flow a
  enter_join token ix (some flow) a =
      if is_some (arrived ix a.scope a.state.tokens flow)
      then fault second_arrival a
      else let b = park token ix (join flow) a in
        join_full (all_arrived ix b.scope b.state.tokens (proc.node ix).incoming) ix b

  -- The flow that an exclusive gateway takes: its only one, else the first whose condition holds,
  -- else the default.
  unfoldable pub choose : List FlowIx → Option FlowIx → Value → Option FlowIx
  choose (only ∷ []) default variables = some only
  choose outgoing default variables =
      or_else
        (find (λ f. passes (proc.flow f).condition variables)
          (filter (λ f. not (is_flow default f)) outgoing))
        default

  -- One new token for each outgoing flow, in declaration order.
  unfoldable pub split : List FlowIx → Advancer → Advancer
  split [] a = a
  split (flow ∷ flows) a =
      let (child, s) = next_token_id a.state in
      split flows (leave child flow (record a { state = s }))
