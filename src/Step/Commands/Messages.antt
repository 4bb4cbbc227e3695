-- ===== src/Step/Commands/Messages.antt =====
-- `DeliverMessage`: a catch, a boundary and an event-based gateway's alternative.
use rbpmn.Common.{ℕ, Bool, true, false, not, none, some, ◌==◌, if◌then◌else◌}
use rbpmn.Common.Maps.{get, remove}
use rbpmn.Json.{Value}
use rbpmn.Json.Merge.{merge_patch}
use rbpmn.Process.{
  ExecutableProcess, ExecKind, Platform, message_boundary, kind_of, node_id, boundary_interrupts,
}
use rbpmn.State.{
  InstanceState, SubscriptionId, Token, WaitKind, SubscriptionState, work_item, message,
  event_gateway, is_active,
}
use rbpmn.Event.{message_received}
use rbpmn.Step.Outcome.{
  Advancer, Run, ok, fault, ◌>>=◌, Stepped, refused, finish, instance_not_active,
  unknown_subscription, boundary_cannot_rearm, invariant, lost_token, unrelated_wait, push_event,
  in_scope, completed, new, panicked,
}
use rbpmn.Step.Withdraw.{cancel_attachments}
use rbpmn.Step.Arm.{armed, frozen, broken, ArmKey, opens, fails, no_arm, arm_key, subscribe}
use rbpmn.Step.Advance.{leave_single, unpark}
use rbpmn.Step.Advance.Enter.{run}
use rbpmn.Step.Boundary.{interrupt_host, spawn_side_token, take_gateway_path}
use rbpmn.Step.Commands.Repair.{apply_patch}

module _ (lib : Platform) (proc : ExecutableProcess) (fuel : ℕ) where
  -- A non-interrupting message boundary: a fresh subscription, then the side path.
  unfoldable pub message_side_path : SubscriptionState → Token → Advancer → Run
  message_side_path sub host a =
      elim (subscribe lib proc sub.token sub.element (in_scope host.scope a)) [
        | armed _ b ↦ spawn_side_token proc sub.element b
        | frozen b ↦ ok b
        | broken b ↦ fault panicked b
      ]

  unfoldable pub deliver_boundary : SubscriptionState → Token → Advancer → Run
  deliver_boundary sub host a =
      (if boundary_interrupts (kind_of proc sub.element)
        then interrupt_host proc sub.token sub.element a
        else message_side_path sub host a)
      >>= run lib proc fuel

  unfoldable pub deliver_on : WaitKind → SubscriptionId → SubscriptionState → Token → Advancer → Run
  deliver_on (message sid) id sub host a =
      if sid == id
      then leave_single proc sub.token sub.element (
          completed proc sub.element
            (unpark sub.token (cancel_attachments proc sub.token (in_scope host.scope a))))
        >>= run lib proc fuel
      else deliver_boundary sub host a
  deliver_on (work_item _) id sub host a = deliver_boundary sub host a
  deliver_on (WaitKind.scope _) id sub host a = deliver_boundary sub host a
  deliver_on event_gateway id sub host a =
      take_gateway_path proc sub.token host.node sub.element
        (cancel_attachments proc sub.token (in_scope host.scope a))
      >>= run lib proc fuel
  deliver_on _ id sub host a = fault unrelated_wait a

  -- The subscription is gone, the message received and the patch applied before its token moves.
  unfoldable pub deliver : SubscriptionId → SubscriptionState → Value → InstanceState → Run
  deliver id sub patch s =
      let a = apply_patch patch (
        push_event (message_received id (node_id proc sub.element) sub.message)
          (new (record s { subscriptions = remove id s.subscriptions }))) in
      elim (get sub.token s.tokens) [
        | none ↦ fault lost_token a
        | some host ↦ deliver_on host.wait id sub host a
      ]

  unfoldable pub rearms : ExecKind → Bool
  rearms (message_boundary _ _ false) = true
  rearms _ = false

  -- A delivery to a non-interrupting boundary goes ahead if it could arm again afterwards.
  unfoldable pub deliver_checked :
      ArmKey → SubscriptionId → SubscriptionState → Value → InstanceState → Stepped
  deliver_checked no_arm id sub patch s = (s, refused (invariant panicked))
  deliver_checked (fails failure) id sub patch s =
      (s, refused (boundary_cannot_rearm (node_id proc sub.element) failure))
  deliver_checked (opens _ _) id sub patch s = finish (deliver id sub patch s)

  unfoldable pub step_deliver_message : SubscriptionId → Value → InstanceState → Stepped
  step_deliver_message id patch s =
      if not (is_active s.status)
      then (s, refused (instance_not_active s.status))
      else elim (get id s.subscriptions) [
        | none ↦ (s, refused (unknown_subscription id))
        | some sub ↦
            if rearms (kind_of proc sub.element)
            then deliver_checked
                (arm_key lib proc s (merge_patch s.variables patch) sub.element (some id)) id sub
                patch s
            else finish (deliver id sub patch s)
      ]
