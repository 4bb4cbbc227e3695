-- ===== src/Step/Claims/Nodes.antt =====
-- The claims on tokens under `enter`, at the nodes whose token parks under its arms (step.rs).
use rbpmn.Common.{ℕ, refl, Option, none, String}
use rbpmn.Process.{
  NodeIx, FlowIx, ScopeIx, ExecutableProcess, WorkKind, TimerSource, Platform, event_based_gateway,
  resolve,
}
use rbpmn.State.{TokenId, WaitKind, work_item, timer, message, event_gateway}
use rbpmn.Step.Outcome.{Advancer, ok, fault, panicked}
use rbpmn.Step.Arm.{
  arm_boundaries, armed, frozen, broken, Arming, arm_timer, record_timer, subscribe, arm_key,
}
use rbpmn.Step.Advance.{park}
use rbpmn.Step.Advance.Enter.{
  settled, enter_task, enter_timer_catch, enter_message_catch, enter_sub_process, enter_kind,
}
use rbpmn.Step.Claims.{timer_of, subscription_of, item_of, host_of, IsSound, HasHand}
use rbpmn.Step.Claims.Lookup.{get-insert_same}
use rbpmn.Step.Claims.Queue.{enqueue, minted_one, fresh-Hand}
use rbpmn.Step.Claims.Stop.{freeze-IsSound}
use rbpmn.Step.Claims.Moves.{Keeps, keep}
use rbpmn.Step.Claims.Join.{park-IsSound}
use rbpmn.Step.Claims.Install.{
  hand-Stoppable, install, new_timer, new_subscription, new_item, new_scope,
}
use rbpmn.Step.Claims.Arms.{
  on_resolved, on_key, settled-Keeps, after_arming, arm_boundaries-ArmKeeps, arm_alternatives-Keeps,
}

module _ (lib : Platform) (proc : ExecutableProcess) where
  pub enter_task-Keeps :
      (kind : WorkKind) (topic : String) (token : TokenId) (ix : NodeIx) (a : Advancer)
      → IsSound a
      → HasHand token a
      → Keeps (enter_task lib proc kind topic token ix a)
  unfolding enter_task
  enter_task-Keeps kind topic token ix a s k =
      let id = a.state.next_work_item in
      settled-Keeps (
        arm_boundaries-ArmKeeps lib proc token ix _
          (install token (record { node = ix; scope = a.scope; wait = work_item id }) (item_of id) s
            k (new_item id _) refl)
          (record {
            at = record { node = ix; scope = a.scope; wait = work_item id };
            parked = get-insert_same token _ a.state.tokens;
            takes = tt;
            unasked = k.unasked;
          }))

  pub enter_timer_catch-Keeps :
      (due : TimerSource) (token : TokenId) (ix : NodeIx) (a : Advancer)
      → IsSound a
      → HasHand token a
      → Keeps (enter_timer_catch lib proc due token ix a)
  unfolding enter_timer_catch arm_timer record_timer
  enter_timer_catch-Keeps due token ix a s k =
      on_resolved {B = Arming ℕ}
        (λ r. Keeps (elim r [
          | armed id b ↦ ok (park token ix (timer id) b)
          | frozen b ↦ ok b
          | broken b ↦ fault panicked b
        ]))
        (resolve lib due a.state.variables)
        (λ d. keep (
          install token (record { node = ix; scope = a.scope; wait = timer a.state.next_timer })
            (timer_of a.state.next_timer) s k (new_timer a.state.next_timer _) refl))
        (λ why. keep (freeze-IsSound proc token ix none none _ s (hand-Stoppable k)))

  pub enter_message_catch-Keeps :
      (token : TokenId) (ix : NodeIx) (a : Advancer)
      → IsSound a
      → HasHand token a
      → Keeps (enter_message_catch lib proc token ix a)
  unfolding enter_message_catch subscribe
  enter_message_catch-Keeps token ix a s k =
      let id = a.state.next_subscription in
      on_key {B = Arming ℕ}
        (λ r. Keeps (elim r [
          | armed id b ↦ settled (arm_boundaries lib proc token ix (park token ix (message id) b))
          | frozen b ↦ ok b
          | broken b ↦ fault panicked b
        ]))
        (arm_key lib proc a.state a.state.variables ix none) (keep s)
        (λ e. keep (freeze-IsSound proc token ix none none _ s (hand-Stoppable k)))
        (λ m t. settled-Keeps (
          arm_boundaries-ArmKeeps lib proc token ix _
            (install token (record { node = ix; scope = a.scope; wait = message id })
              (subscription_of id) s k (new_subscription id _) tt)
            (record {
              at = record { node = ix; scope = a.scope; wait = message id };
              parked = get-insert_same token _ a.state.tokens;
              takes = tt;
              unasked = k.unasked;
            })))

  pub enter_sub_process-Keeps :
      (child : ScopeIx) (token : TokenId) (ix : NodeIx) (a : Advancer)
      → IsSound a
      → HasHand token a
      → Keeps (enter_sub_process lib proc child token ix a)
  unfolding enter_sub_process
  enter_sub_process-Keeps child token ix a s k =
      let id = a.state.next_scope in
      after_arming
        (arm_boundaries-ArmKeeps lib proc token ix _
          (install token (record { node = ix; scope = a.scope; wait = WaitKind.scope id })
            (host_of id) s k (new_scope id _) refl)
          (record {
            at = record { node = ix; scope = a.scope; wait = WaitKind.scope id };
            parked = get-insert_same token _ a.state.tokens;
            takes = tt;
            unasked = k.unasked;
          }))
        (λ _ c t d. keep (enqueue _ (minted_one t) (fresh-Hand t)))

  pub enter_gateway-Keeps :
      (token : TokenId) (ix : NodeIx) (via : Option FlowIx) (a : Advancer)
      → IsSound a
      → HasHand token a
      → Keeps (enter_kind lib proc event_based_gateway token ix via a)
  unfolding enter_kind
  enter_gateway-Keeps token ix via a s k =
      arm_alternatives-Keeps lib proc (proc.node ix).outgoing token _
        (park-IsSound token ix event_gateway a s k)
        (record {
          at = record { node = ix; scope = a.scope; wait = event_gateway };
          parked = get-insert_same token _ a.state.tokens;
          takes = tt;
          unasked = k.unasked;
        })
