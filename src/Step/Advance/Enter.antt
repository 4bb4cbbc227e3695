-- ===== src/Step/Advance/Enter.antt =====
-- `Advancer::enter`, an arm for each kind of node, and the queue's loop `run`.
pub mod Arms
pub mod Quiet
pub mod Reask
use rbpmn.Common.{
  ℕ, zero, suc, String, Bool, true, false, not, Option, none, some, List, [], ◌∷◌, ◌++◌, ltb, ◌==◌,
  is_nil, length, if◌then◌else◌,
}
use rbpmn.Common.Maps.{Map, get, insert}
use rbpmn.Process.{
  NodeIx, FlowIx, ExecutableProcess, ExecKind, WorkKind, ScopeIx, TimerSource, Platform, start, end,
  terminate_end, task, business_rule, exclusive_gateway, parallel_gateway, error_boundary,
  timer_catch, message_catch, timer_boundary, message_boundary, event_based_gateway, sub_process,
  kind_of, node_id,
}
use rbpmn.State.{
  InstanceState, InstanceStatus, TokenId, ScopeId, Token, WaitKind, work_item, timer, message,
  event_gateway, decision, completed, root, is_active, next_token_id, alloc_work_item, alloc_scope,
}
use rbpmn.Event.{work_item_created, decision_requested, instance_completed}
use rbpmn.Step.Outcome.{
  Advancer, Move, Run, ok, fault, exhausted, ◌>>=◌, push_event, push_move, in_scope, started,
  completed as element_completed, bad_gateway_target, boundary_entered, no_default_flow, panicked,
}
use rbpmn.Step.Withdraw.{tear_down_scope, terminate}
use rbpmn.Step.Arm.{Arming, armed, frozen, broken, arm_timer, subscribe, arm_boundaries}
use rbpmn.Step.Advance.{
  park, leave, leave_single, complete_scope, complete_scope_if_empty, enter_join, choose, split,
}

-- `let _ = self.arm_boundaries(…)`: a freeze has been recorded, and the entry is done.
abbrev pub settled {ℓ} : {A : Type ℓ} → Arming A → Run
settled (armed _ a) = ok a
settled (frozen a) = ok a
settled (broken a) = fault panicked a

module _ (lib : Platform) (proc : ExecutableProcess) where
  unfoldable pub enter_task : WorkKind → String → TokenId → NodeIx → Advancer → Run
  enter_task kind topic token ix a =
      let b = started proc ix a in
      let (item, s) =
        alloc_work_item
          (record { element = ix; token = token; kind = kind; topic = topic; is_open = true })
          b.state in
      settled (
        arm_boundaries lib proc token ix (
          push_event (work_item_created item (node_id proc ix) kind topic)
            (park token ix (work_item item) (record b { state = s }))))

  unfoldable pub enter_timer_catch : TimerSource → TokenId → NodeIx → Advancer → Run
  enter_timer_catch due token ix a = elim (arm_timer lib proc token ix due (started proc ix a)) [
    | armed id b ↦ ok (park token ix (timer id) b)
    | frozen b ↦ ok b
    | broken b ↦ fault panicked b
  ]

  unfoldable pub enter_message_catch : TokenId → NodeIx → Advancer → Run
  enter_message_catch token ix a = elim (subscribe lib proc token ix (started proc ix a)) [
    | armed id b ↦ settled (arm_boundaries lib proc token ix (park token ix (message id) b))
    | frozen b ↦ ok b
    | broken b ↦ fault panicked b
  ]

  -- Arms one alternative of an event-based gateway; `none` is a target of another kind.
  unfoldable pub arm_alternative : TokenId → NodeIx → ExecKind → Advancer → Option (Arming ℕ)
  arm_alternative token target (timer_catch due) a = some (arm_timer lib proc token target due a)
  arm_alternative token target (message_catch _ _) a = some (subscribe lib proc token target a)
  arm_alternative token target _ a = none

  unfoldable pub arm_alternatives : List FlowIx → TokenId → Advancer → Run
  arm_alternatives [] token a = ok a
  arm_alternatives (flow ∷ flows) token a =
      let target = (proc.flow flow).target in
      elim (arm_alternative token target (kind_of proc target) a) [
        | none ↦ fault bad_gateway_target a
        | some (armed _ b) ↦ arm_alternatives flows token b
        | some (frozen b) ↦ ok b
        | some (broken b) ↦ fault panicked b
      ]

  -- The parent parks, a new scope opens, and a token starts inside it unless a boundary froze.
  unfoldable pub enter_sub_process : ScopeIx → TokenId → NodeIx → Advancer → Run
  enter_sub_process child_static token ix a =
      let b = started proc ix a in
      let (child, s) =
        alloc_scope (record { element = ix; parent = b.scope; token = token }) b.state in
      elim (arm_boundaries lib proc token ix
        (park token ix (WaitKind.scope child) (record b { state = s }))) [
          | frozen c ↦ ok c
          | broken c ↦ fault panicked c
          | armed _ c ↦
              let (inner, s') = next_token_id c.state in
              ok (
                push_move
                  (record {
                    token = inner;
                    node = proc.scope_start child_static;
                    via = none;
                    scope = child;
                  })
                  (record c { state = s' }))
        ]

  unfoldable pub enter_exclusive : Option FlowIx → TokenId → NodeIx → Advancer → Run
  enter_exclusive default token ix a =
      let b = started proc ix a in
      elim (choose proc (proc.node ix).outgoing default b.state.variables) [
        | none ↦ fault no_default_flow b
        | some flow ↦ ok (leave proc token flow (element_completed proc ix b))
      ]

  unfoldable pub enter_parallel : TokenId → NodeIx → Option FlowIx → Advancer → Run
  enter_parallel token ix via a =
      if ltb 1 (length (proc.node ix).incoming)
      then enter_join proc token ix via a
      else ok (split proc (proc.node ix).outgoing (element_completed proc ix (started proc ix a)))

  unfoldable pub enter_terminate_end : NodeIx → Advancer → Run
  enter_terminate_end ix a =
      let b = element_completed proc ix (started proc ix a) in
      if b.scope == root
      then ok (terminate proc b)
      else complete_scope proc b.scope (tear_down_scope proc b.scope b)

  unfoldable pub enter_kind : ExecKind → TokenId → NodeIx → Option FlowIx → Advancer → Run
  enter_kind start token ix via a =
      leave_single proc token ix (element_completed proc ix (started proc ix a))
  enter_kind (business_rule d _) token ix via a = ok (
      push_event (decision_requested (node_id proc ix) d)
        (park token ix decision (started proc ix a)))
  enter_kind (task kind topic) token ix via a = enter_task kind topic token ix a
  enter_kind (timer_catch due) token ix via a = enter_timer_catch due token ix a
  enter_kind (message_catch _ _) token ix via a = enter_message_catch token ix a
  enter_kind event_based_gateway token ix via a =
      arm_alternatives (proc.node ix).outgoing token
        (park token ix event_gateway (started proc ix a))
  enter_kind (sub_process child) token ix via a = enter_sub_process child token ix a
  enter_kind (timer_boundary _ _) token ix via a = fault boundary_entered a
  enter_kind (message_boundary _ _ _) token ix via a = fault boundary_entered a
  enter_kind (error_boundary _) token ix via a = fault boundary_entered a
  enter_kind (exclusive_gateway default) token ix via a = enter_exclusive default token ix a
  enter_kind parallel_gateway token ix via a = enter_parallel token ix via a
  enter_kind end token ix via a =
      let b = element_completed proc ix (started proc ix a) in
      complete_scope_if_empty proc b.scope b
  enter_kind terminate_end token ix via a = enter_terminate_end ix a

  -- One round of the queue's loop: the move's scope, and its node.
  unfoldable pub enter : Move → Advancer → Run
  enter mv a = enter_kind (kind_of proc mv.node) mv.token mv.node mv.via (in_scope mv.scope a)

  -- `while let Some(mv) = self.queue.pop_front()`; the move popped at an instance that is no longer
  -- active is dropped.
  unfoldable pub drain : ℕ → Advancer → Run
  drain zero a = exhausted a
  drain (suc fuel) a = elim (a.queue) [
    | [] ↦ ok a
    | mv ∷ rest ↦
        let b = record a { queue = rest } in
        if is_active a.state.status then enter mv b >>= drain fuel else ok b
  ]

  unfoldable pub request : ExecKind → NodeIx → Advancer → Advancer
  request (business_rule d _) ix a = push_event (decision_requested (node_id proc ix) d) a
  request _ ix a = a

  unfoldable pub ask_again : List TokenId → Advancer → Advancer
  ask_again [] a = a
  ask_again (token ∷ tokens) a = ask_again tokens (elim (get token a.state.tokens) [
    | none ↦ a
    | some t ↦ request (kind_of proc t.node) t.node (record a {
      state = record (a.state) {
        tokens = insert token (record t { wait = decision }) a.state.tokens;
      };
    })
  ])

  -- A repair's decisions, unless the moves froze the instance again.
  unfoldable pub settle_decisions : Advancer → Advancer
  settle_decisions a =
      if is_active a.state.status then ask_again a.reask (record a { reask = [] }) else a

  -- An active instance with no token left is complete.
  unfoldable pub settle_status : Advancer → Advancer
  settle_status a =
      if is_active a.state.status
      then (if is_nil a.state.tokens
          then push_event instance_completed
              (record a { state = record (a.state) { status = completed } })
          else a)
      else a

  -- `Advancer::run`.
  unfoldable pub run : ℕ → Advancer → Run
  run fuel a = drain fuel a >>= λ b. ok (settle_status (settle_decisions b))
