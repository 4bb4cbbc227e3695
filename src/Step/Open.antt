-- ===== src/Step/Open.antt =====
-- Every definition that a run of `step` computes with, on one `unfolding` line: a test names
-- `runs`.
use rbpmn.State.{children, subtree_loop, scope_subtree, open_incident_of, open_incident}
use rbpmn.Process.{
  due_of_text, resolve, exact_match, error_boundary_for, gateway_before, resume_point,
}
use rbpmn.Common.Maps.{insert}
use rbpmn.Json.Values.{get, insert as insert_member, remove, is_empty}
use rbpmn.Json.Merge.{merge_patch, write_member}
use rbpmn.Json.Paths.{resolve as resolve_path, assign}
use rbpmn.Condition.{eval, truth}
use rbpmn.Step.Outcome.{finish}
use rbpmn.Step.Withdraw.{
  halt_moves, cancel_work_item, cancel_items, timer_events, subscription_events, withdraw_arms,
  reap, reap_all, tear_down_scope, discard_scope, terminate, freeze,
}
use rbpmn.Step.Arm.{
  arm_with, arm_key, record_timer, arm_timer, rearm_cycle, arm_failed, subscribe, arm_boundary,
  arm_each, arm_boundaries,
}
use rbpmn.Step.Advance.{
  scope_is_empty, arrived, all_arrived, unpark_all, leave, leave_by, leave_single, complete_scope,
  complete_scope_if_empty, join_full, enter_join, choose, split,
}
use rbpmn.Step.Advance.Enter.{
  enter_task, enter_timer_catch, enter_message_catch, arm_alternative, arm_alternatives,
  enter_sub_process, enter_exclusive, enter_parallel, enter_terminate_end, enter_kind, enter, drain,
  request, ask_again, settle_decisions, settle_status, run,
}
use rbpmn.Step.Boundary.{
  outward_loop, outward, first_catch, catcher, interrupt_to_boundary, end_wait, interrupt_host,
  spawn_side_token, winning_flow, take_gateway_path, abandon_would_strand_a_join,
}
use rbpmn.Step.Commands.{
  start_from, step_start, complete_item, step_complete_work_item, reason_of, answer_decision,
  decide_at, decide_waiting, step_complete_decision, fail_item, step_raise_error, timer_side_path,
  fire_boundary, fire_on, fire, step_fire_timer, message_side_path, deliver_boundary, deliver_on,
  deliver, rearms, deliver_checked, step_deliver_message, step,
}
use rbpmn.Step.Commands.Repair.{
  apply_patch, causes, is_blank, refusal_to_advance, refusal, write_answer, divert_to, dispose,
  resume_one, resume_each, resume_halted, patch_of, begin_repair, carry_out, repair_cause, repair,
}

unfoldable pub runs : Unit {0}
unfolding finish children subtree_loop scope_subtree open_incident_of open_incident due_of_text
    resolve exact_match error_boundary_for gateway_before resume_point insert get insert_member
    remove is_empty merge_patch write_member resolve_path assign eval truth halt_moves
    cancel_work_item cancel_items timer_events subscription_events withdraw_arms reap reap_all
    tear_down_scope discard_scope terminate freeze arm_with arm_key record_timer arm_timer
    rearm_cycle arm_failed subscribe arm_boundary arm_each arm_boundaries scope_is_empty arrived
    all_arrived unpark_all leave leave_by leave_single complete_scope complete_scope_if_empty
    join_full enter_join choose split enter_task enter_timer_catch enter_message_catch
    arm_alternative arm_alternatives enter_sub_process enter_exclusive enter_parallel
    enter_terminate_end enter_kind enter drain request ask_again settle_decisions settle_status run
    outward_loop outward first_catch catcher interrupt_to_boundary end_wait interrupt_host
    spawn_side_token winning_flow take_gateway_path abandon_would_strand_a_join start_from
    step_start complete_item step_complete_work_item reason_of answer_decision decide_at
    decide_waiting step_complete_decision fail_item step_raise_error timer_side_path fire_boundary
    fire_on fire step_fire_timer message_side_path deliver_boundary deliver_on deliver rearms
    deliver_checked step_deliver_message step apply_patch causes is_blank refusal_to_advance refusal
    write_answer divert_to dispose resume_one resume_each resume_halted patch_of begin_repair
    carry_out repair_cause repair
runs = tt
