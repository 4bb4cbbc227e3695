-- ===== src/Step/Commands/Items.antt =====
-- The commands on work items and decisions, and the start.
use rbpmn.Common.{ℕ, String, false, not, Option, none, some, List, if◌then◌else◌}
use rbpmn.Common.Maps.{get, insert}
use rbpmn.Json.{Value, is_null}
use rbpmn.Json.Paths.{assign}
use rbpmn.Process.{ExecutableProcess, ExecKind, Platform, business_rule, kind_of, node_id}
use rbpmn.State.{
  InstanceState, InstanceStatus, TokenId, WorkItemId, Token, WaitKind, WorkItemState, created,
  active, decision, root, is_active, next_token_id,
}
use rbpmn.Event.{instance_started, work_item_completed, work_item_failed, decision_evaluated}
use rbpmn.Step.Outcome.{
  Run, ok, fault, ◌>>=◌, Stepped, refused, finish, already_started, instance_not_active,
  unknown_work_item, work_item_not_open, invariant, lost_token, not_deciding, not_a_decision,
  push_event, push_move, in_scope, completed, new,
}
use rbpmn.Step.Withdraw.{cancel_attachments, freeze, scope_or}
use rbpmn.Step.Advance.{leave_single, unpark}
use rbpmn.Step.Advance.Enter.{run}
use rbpmn.Step.Boundary.{catcher, interrupt_to_boundary}
use rbpmn.Step.Commands.Repair.{apply_patch}

module _ (lib : Platform) (proc : ExecutableProcess) (fuel : ℕ) where
  unfoldable pub start_from : InstanceStatus → Value → InstanceState → Stepped
  start_from created variables s =
      let (token, s') = next_token_id (record s { status = active; variables = variables }) in
      finish (
        run lib proc fuel (
          push_move (record { token = token; node = proc.start; via = none; scope = root })
            (push_event (instance_started variables) (new s'))))
  start_from active variables s = (s, refused already_started)
  start_from status variables s = (s, refused (instance_not_active status))

  unfoldable pub step_start : Value → InstanceState → Stepped
  step_start variables s = start_from s.status variables s

  -- Past the guards: the item closes, its token leaves the element, the patch applied between.
  unfoldable pub complete_item : WorkItemId → WorkItemState → Value → InstanceState → Run
  complete_item id item patch s =
      let s' = record s { work_items = insert id (record item { is_open = false }) s.work_items } in
      elim (get item.token s.tokens) [
        | none ↦ fault lost_token (new s')
        | some parked ↦
            let a = in_scope parked.scope (unpark item.token (new s')) in
            let b =
              apply_patch patch
                (push_event (work_item_completed id (node_id proc item.element)) a) in
            leave_single proc item.token item.element
              (completed proc item.element (cancel_attachments proc item.token b))
            >>= run lib proc fuel
      ]

  unfoldable pub step_complete_work_item : WorkItemId → Value → InstanceState → Stepped
  step_complete_work_item id patch s =
      if not (is_active s.status)
      then (s, refused (instance_not_active s.status))
      else elim (get id s.work_items) [
        | none ↦ (s, refused (unknown_work_item id))
        | some item ↦
            if not item.is_open
            then (s, refused (work_item_not_open id))
            else finish (complete_item id item patch s)
      ]

  unfoldable pub reason_of : Value → Option String → Option String
  reason_of answer reason = if is_null answer then reason else none

  -- Past the guards: no answer freezes, an answer replaces what is at the bound path.
  unfoldable pub answer_decision :
      TokenId → Token → List String → Option Value → Option String → InstanceState → Run
  answer_decision token parked result none reason s =
      run lib proc fuel (freeze proc token parked.node none reason (in_scope parked.scope (new s)))
  answer_decision token parked result (some answer) reason s =
      let a =
        push_event (decision_evaluated (node_id proc parked.node) answer (reason_of answer reason))
          (in_scope parked.scope (new s)) in
      let b =
        unpark token (record a {
          state = record (a.state) { variables = assign s.variables result answer };
        }) in
      leave_single proc token parked.node
        (completed proc parked.node (cancel_attachments proc token b))
      >>= run lib proc fuel

  unfoldable pub decide_at :
      ExecKind → TokenId → Token → Option Value → Option String → InstanceState → Stepped
  decide_at (business_rule _ result) token parked answer reason s =
      finish (answer_decision token parked result answer reason s)
  decide_at _ token parked answer reason s = (s, refused (invariant not_a_decision))

  unfoldable pub decide_waiting :
      WaitKind → TokenId → Token → Option Value → Option String → InstanceState → Stepped
  decide_waiting decision token parked answer reason s =
      decide_at (kind_of proc parked.node) token parked answer reason s
  decide_waiting _ token parked answer reason s = (s, refused (invariant not_deciding))

  unfoldable pub step_complete_decision :
      TokenId → Option Value → Option String → InstanceState → Stepped
  step_complete_decision token answer reason s =
      if not (is_active s.status)
      then (s, refused (instance_not_active s.status))
      else elim (get token s.tokens) [
        | none ↦ (s, refused (invariant lost_token))
        | some parked ↦ decide_waiting parked.wait token parked answer reason s
      ]

  -- Past the guards: the item closes, and the error goes to its catcher or freezes the instance.
  unfoldable pub fail_item : WorkItemId → WorkItemState → Option String → InstanceState → Run
  fail_item id item code s =
      let a = push_event (work_item_failed id (node_id proc item.element) code) (
        new (record s { work_items = insert id (record item { is_open = false }) s.work_items })) in
      let at = scope_or root (get item.token s.tokens) in
      elim (catcher proc a.state item.element item.token at code) [
        | some (target, boundary) ↦
            interrupt_to_boundary proc target boundary a >>= run lib proc fuel
        | none ↦ ok (freeze proc item.token item.element code none a)
      ]

  unfoldable pub step_raise_error : WorkItemId → Option String → InstanceState → Stepped
  step_raise_error id code s =
      if not (is_active s.status)
      then (s, refused (instance_not_active s.status))
      else elim (get id s.work_items) [
        | none ↦ (s, refused (unknown_work_item id))
        | some item ↦
            if not item.is_open
            then (s, refused (work_item_not_open id))
            else finish (fail_item id item code s)
      ]
