-- ===== src/Step/Commands/Timers.antt =====
-- `FireTimer`: a catch, a boundary and an event-based gateway's alternative.
use rbpmn.Common.{ℕ, not, none, some, ◌==◌, if◌then◌else◌}
use rbpmn.Common.Maps.{get, remove}
use rbpmn.Process.{ExecutableProcess, Platform, kind_of, node_id, boundary_interrupts}
use rbpmn.State.{
  InstanceState, TimerId, Token, WaitKind, TimerState, work_item, timer, message, event_gateway,
  is_active,
}
use rbpmn.Event.{timer_fired}
use rbpmn.Step.Outcome.{
  Advancer, Run, fault, ◌>>=◌, Stepped, refused, finish, instance_not_active, unknown_timer,
  lost_token, unrelated_wait, push_event, in_scope, completed, new,
}
use rbpmn.Step.Withdraw.{cancel_attachments}
use rbpmn.Step.Arm.{rearm_cycle}
use rbpmn.Step.Advance.{leave_single, unpark}
use rbpmn.Step.Advance.Enter.{run}
use rbpmn.Step.Boundary.{interrupt_host, spawn_side_token, take_gateway_path}

module _ (lib : Platform) (proc : ExecutableProcess) (fuel : ℕ) where
  -- A non-interrupting timer boundary: the next occurrence of a cycle, then the side path.
  unfoldable pub timer_side_path : TimerId → TimerState → Token → Advancer → Run
  timer_side_path id t host a =
      spawn_side_token proc t.element (rearm_cycle lib proc id t (in_scope host.scope a))

  unfoldable pub fire_boundary : TimerId → TimerState → Token → Advancer → Run
  fire_boundary id t host a =
      (if boundary_interrupts (kind_of proc t.element)
        then interrupt_host proc t.token t.element a
        else timer_side_path id t host a)
      >>= run lib proc fuel

  -- What a fired timer does, by the wait of the token that it is armed on.
  unfoldable pub fire_on : WaitKind → TimerId → TimerState → Token → Advancer → Run
  fire_on (timer tid) id t host a =
      if tid == id
      then leave_single proc t.token t.element
          (completed proc t.element (unpark t.token (in_scope host.scope a)))
        >>= run lib proc fuel
      else fault unrelated_wait a
  fire_on (work_item _) id t host a = fire_boundary id t host a
  fire_on (message _) id t host a = fire_boundary id t host a
  fire_on (WaitKind.scope _) id t host a = fire_boundary id t host a
  fire_on event_gateway id t host a =
      take_gateway_path proc t.token host.node t.element
        (cancel_attachments proc t.token (in_scope host.scope a))
      >>= run lib proc fuel
  fire_on _ id t host a = fault unrelated_wait a

  -- The timer is gone before anything else happens.
  unfoldable pub fire : TimerId → TimerState → InstanceState → Run
  fire id t s =
      let a =
        push_event (timer_fired id (node_id proc t.element))
          (new (record s { timers = remove id s.timers })) in
      elim (get t.token s.tokens) [
        | none ↦ fault lost_token a
        | some host ↦ fire_on host.wait id t host a
      ]

  unfoldable pub step_fire_timer : TimerId → InstanceState → Stepped
  step_fire_timer id s =
      if not (is_active s.status)
      then (s, refused (instance_not_active s.status))
      else elim (get id s.timers) [
        | none ↦ (s, refused (unknown_timer id))
        | some t ↦ finish (fire id t s)
      ]
