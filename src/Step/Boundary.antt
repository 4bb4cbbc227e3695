-- ===== src/Step/Boundary.antt =====
-- The methods of `Advancer` for a boundary that fires on a waiting host, the event-based gateway's
-- race, and the walk that finds an error's boundary.
pub mod Handles
pub mod Walk
use rbpmn.Common.{
  ℕ, zero, suc, String, Bool, true, false, not, ◌&&◌, ◌||◌, Option, none, some, is_none, List, [],
  ◌∷◌, ◌++◌, any, find, filter, ◌==◌, same_text, or_else, if◌then◌else◌,
}
use rbpmn.Common.Maps.{Map, get, remove}
use rbpmn.Process.{
  NodeIx, FlowIx, ExecutableProcess, ExecKind, error_boundary, kind_of, node_id, error_boundary_for,
}
use rbpmn.State.{
  InstanceState, TokenId, ScopeId, Token, WaitKind, work_item, message, next_token_id,
}
use rbpmn.Event.{flow_taken, subscription_cancelled}
use rbpmn.Step.Outcome.{
  Advancer, Run, ok, fault, ◌>>=◌, push_event, in_scope, started, completed, lost_item,
  lost_subscription, not_a_host, lost_host, lost_token, no_winning_flow,
}
use rbpmn.Step.Withdraw.{
  cancel_work_item, cancel_attachments, withdraw_arms, discard_scope, owned_scope,
}
use rbpmn.Step.Advance.{leave_single, unpark}

-- The loop of `outward`, with the scope to look up next.
unfoldable pub outward_loop : ℕ → InstanceState → ScopeId → List (TokenId × NodeIx)
outward_loop zero s at = []
outward_loop (suc fuel) s at = elim (get at s.scopes) [
  | none ↦ []
  | some enclosing ↦ (enclosing.token, enclosing.element) ∷ outward_loop fuel s enclosing.parent
]

-- The host, then each enclosing subprocess. A scope's parent was allocated before it, so `at + 1`
-- rounds reach the root.
unfoldable pub outward : InstanceState → NodeIx → TokenId → ScopeId → List (TokenId × NodeIx)
outward s host token at = (token, host) ∷ outward_loop (suc at) s at

module _ (proc : ExecutableProcess) where
  -- `find_map` over the walk: the first host with a boundary that takes the code.
  unfoldable pub first_catch : List (TokenId × NodeIx) → Option String → Option (TokenId × NodeIx)
  first_catch [] code = none
  first_catch ((target, host) ∷ hosts) code = elim (error_boundary_for proc host code) [
    | some b ↦ some (target, b)
    | none ↦ first_catch hosts code
  ]

  unfoldable pub catcher :
      InstanceState → NodeIx → TokenId → ScopeId → Option String → Option (TokenId × NodeIx)
  catcher s host token at code = first_catch (outward s host token at) code

  -- The host's token leaves on the boundary path; a subprocess host's scope is torn down.
  unfoldable pub interrupt_to_boundary : TokenId → NodeIx → Advancer → Run
  interrupt_to_boundary token boundary a = elim (get token a.state.tokens) [
    | none ↦ fault lost_token a
    | some parked ↦
        let b = discard_scope proc (owned_scope (some parked)) (unpark token a) in
        let c = cancel_attachments proc token (in_scope parked.scope b) in
        leave_single proc token boundary (completed proc boundary (started proc boundary c))
  ]

  -- Ends the host's own wait by its kind.
  unfoldable pub end_wait : WaitKind → Advancer → Run
  end_wait (work_item id) a =
      let (found, b) = cancel_work_item proc id a in if found then ok b else fault lost_item b
  end_wait (message id) a = elim (get id a.state.subscriptions) [
    | none ↦ fault lost_subscription a
    | some host ↦ ok (
        push_event (subscription_cancelled id (node_id proc host.element) host.message) (record a {
          state = record (a.state) { subscriptions = remove id a.state.subscriptions };
        }))
  ]
  end_wait (WaitKind.scope _) a = ok a
  end_wait _ a = fault not_a_host a

  unfoldable pub interrupt_host : TokenId → NodeIx → Advancer → Run
  interrupt_host token boundary a = elim (get token a.state.tokens) [
    | none ↦ fault lost_host a
    | some t ↦ end_wait t.wait a >>= interrupt_to_boundary token boundary
  ]

  -- The side path: a fresh sibling token on the boundary's flow.
  unfoldable pub spawn_side_token : NodeIx → Advancer → Run
  spawn_side_token boundary a =
      let (sibling, s) = next_token_id a.state in
      leave_single proc sibling boundary
        (completed proc boundary (started proc boundary (record a { state = s })))

  unfoldable pub winning_flow : List FlowIx → NodeIx → Option FlowIx
  winning_flow outgoing winner = find (λ f. (proc.flow f).target == winner) outgoing

  -- The gateway completes, and the winner is walked to and past.
  unfoldable pub take_gateway_path : TokenId → NodeIx → NodeIx → Advancer → Run
  take_gateway_path token gateway winner a =
      let b = completed proc gateway (unpark token a) in
      elim (winning_flow (proc.node gateway).outgoing winner) [
        | none ↦ fault no_winning_flow b
        | some flow ↦ leave_single proc token winner (
            completed proc winner
              (started proc winner (push_event (flow_taken (proc.flow flow).id) b)))
      ]

  -- Abandon's rule: off every side path, the token must be the last of its scope.
  unfoldable pub abandon_would_strand_a_join : InstanceState → TokenId → ScopeId → NodeIx → Bool
  abandon_would_strand_a_join s cause at resume =
      not (proc.on_side_path resume) && any (λ e. not (e.0 == cause) && e.1.scope == at) s.tokens
