-- ===== src/Step/Quiescence/Commands.antt =====
-- An accepted command never leaves an instance active without a token.
use rbpmn.Common.{
  ℕ, ◌≡◌, ◌≢◌, Bool, true, false, Option, none, some, String, List, [], ◌∷◌, not, ◌&&◌, is_nil,
  if◌then◌else◌,
}
use rbpmn.Common.Maps.{get}
use rbpmn.Json.{Value}
use rbpmn.Process.{ExecutableProcess, Platform, ExecKind, business_rule, kind_of}
use rbpmn.Event.{Event}
use rbpmn.State.{
  InstanceState, InstanceStatus, Token, TokenId, WaitKind, created, active, decision,
  SubscriptionState, open_incident, is_active,
}
use rbpmn.Step.Outcome.{
  Command, Run, Stepped, events, finish, StepError, Disposition, Refusal, refused, repair_refused,
}
use rbpmn.Step.Arm.{ArmKey, opens, fails, no_arm}
use rbpmn.Step.Commands.Repair.{
  repair, repair_cause, refusal, is_abandon_instance, same_incident, is_blank, causes,
}
use rbpmn.Step.Commands.{
  step, start_from, step_start, step_complete_work_item, step_raise_error, step_fire_timer,
  step_complete_decision, step_deliver_message, decide_at, decide_waiting, deliver_checked, deliver,
  rearms,
}
use rbpmn.Step.Quiescence.Results.{
  Occupied, occupied_ok, occupied_fault, occupied_exhausted, run-Occupied, complete_item-Occupied,
  answer_decision-Occupied, fail_item-Occupied, fire-Occupied, deliver-Occupied, carry_out-Occupied,
}

record Settled (x : Stepped) : Type 0 where
  settled : (es : List Event) → x.1 ≡ events es → x.0.status ≡ active → x.0.tokens ≢ []

finish-Settled : {r : Run} → Occupied r → Settled (finish r)
unfolding finish
finish-Settled (occupied_ok h) = record { settled = λ es e. h }
finish-Settled occupied_fault = record { settled = λ es e. cc }
finish-Settled occupied_exhausted = record { settled = λ es e. cc }

refused-Settled : (s : InstanceState) (e : StepError) → Settled (s, refused e)
refused-Settled s e = record { settled = λ es h. cc }

if-Settled :
    (b : Bool) (s : InstanceState) (e : StepError) {y : Stepped}
    → Settled y
    → Settled (if b then (s, refused e) else y)
if-Settled true s e p = refused-Settled s e
if-Settled false s e p = p

elim-Settled :
    {A : Type 0} (o : Option A) (s : InstanceState) (e : StepError) {f : A → Stepped}
    → ((a : A) → Settled (f a))
    → Settled (elim o [ none ↦ (s, refused e) | some a ↦ f a ])
elim-Settled none s e p = refused-Settled s e
elim-Settled (some a) s e p = p a

module _ (lib : Platform) (proc : ExecutableProcess) (fuel : ℕ) where
  start_from-Settled :
      (st : InstanceStatus) (v : Value) (s : InstanceState)
      → Settled (start_from lib proc fuel st v s)
  unfolding start_from
  start_from-Settled created v s = finish-Settled (run-Occupied lib proc fuel _)
  start_from-Settled active v s = refused-Settled s _
  start_from-Settled _ v s = refused-Settled s _

  work-Settled :
      (id : ℕ) (patch : Value) (s : InstanceState)
      → Settled (step_complete_work_item lib proc fuel id patch s)
  unfolding step_complete_work_item
  work-Settled id patch s = if-Settled (not (is_active s.status)) s _ (
      elim-Settled (get id s.work_items) s _ (λ item.
        if-Settled (not item.is_open) s _
          (finish-Settled (complete_item-Occupied lib proc fuel id item patch s))))

  raise_error-Settled :
      (id : ℕ) (c : Option String) (s : InstanceState)
      → Settled (step_raise_error lib proc fuel id c s)
  unfolding step_raise_error
  raise_error-Settled id c s = if-Settled (not (is_active s.status)) s _ (
      elim-Settled (get id s.work_items) s _ (λ item.
        if-Settled (not item.is_open) s _
          (finish-Settled (fail_item-Occupied lib proc fuel id item c s))))

  fire_timer-Settled : (id : ℕ) (s : InstanceState) → Settled (step_fire_timer lib proc fuel id s)
  unfolding step_fire_timer
  fire_timer-Settled id s = if-Settled (not (is_active s.status)) s _ (
      elim-Settled (get id s.timers) s _ (λ t. finish-Settled (fire-Occupied lib proc fuel id t s)))

  decide_at-Settled :
      (k : ExecKind) (token : TokenId) (t : Token) (answer : Option Value) (reason : Option String)
      (s : InstanceState)
      → Settled (decide_at lib proc fuel k token t answer reason s)
  unfolding decide_at
  decide_at-Settled (business_rule _ path) token t answer reason s =
      finish-Settled (answer_decision-Occupied lib proc fuel token t path answer reason s)
  decide_at-Settled _ token t answer reason s = refused-Settled s _

  decide_waiting-Settled :
      (w : WaitKind) (token : TokenId) (t : Token) (answer : Option Value) (reason : Option String)
      (s : InstanceState)
      → Settled (decide_waiting lib proc fuel w token t answer reason s)
  unfolding decide_waiting
  decide_waiting-Settled decision token t answer reason s =
      decide_at-Settled (kind_of proc t.node) token t answer reason s
  decide_waiting-Settled _ token t answer reason s = refused-Settled s _

  decision-Settled :
      (token : TokenId) (answer : Option Value) (reason : Option String) (s : InstanceState)
      → Settled (step_complete_decision lib proc fuel token answer reason s)
  unfolding step_complete_decision
  decision-Settled token answer reason s = if-Settled (not (is_active s.status)) s _ (
      elim-Settled (get token s.tokens) s _
        (λ t. decide_waiting-Settled t.wait token t answer reason s))

  checked-Settled :
      (b : Bool) (k : ArmKey) (id : ℕ) (sub : SubscriptionState) (patch : Value) (s : InstanceState)
      → Settled (
          if b
          then deliver_checked lib proc fuel k id sub patch s
          else finish (deliver lib proc fuel id sub patch s))
  unfolding deliver_checked
  checked-Settled true no_arm id sub patch s = refused-Settled s _
  checked-Settled true (fails f) id sub patch s = refused-Settled s _
  checked-Settled true (opens m k) id sub patch s =
      finish-Settled (deliver-Occupied lib proc fuel id sub patch s)
  checked-Settled false k id sub patch s =
      finish-Settled (deliver-Occupied lib proc fuel id sub patch s)

  message-Settled :
      (id : ℕ) (patch : Value) (s : InstanceState)
      → Settled (step_deliver_message lib proc fuel id patch s)
  unfolding step_deliver_message
  message-Settled id patch s = if-Settled (not (is_active s.status)) s _ (
      elim-Settled (get id s.subscriptions) s _
        (λ sub. checked-Settled (rearms lib proc fuel (kind_of proc sub.element)) _ id sub patch s))

  refused_or_carried :
      (why : Option Refusal) {r : Run} (s : InstanceState)
      → Occupied r
      → Settled (elim why [ some w ↦ (s, refused (repair_refused w)) | none ↦ finish r ])
  refused_or_carried none s p = finish-Settled p
  refused_or_carried (some w) s p = refused-Settled s _

  repair_cause-Settled :
      (n : ℕ) (d : Disposition) (reason : String) (ts : List (TokenId × Token)) (s : InstanceState)
      → Settled (repair_cause proc lib fuel n d reason ts s)
  unfolding repair_cause
  repair_cause-Settled n d reason [] s = refused-Settled s _
  repair_cause-Settled n d reason ((cause, t) ∷ others) s =
      if-Settled (not (is_nil others) && not (is_abandon_instance d)) s _ (
        refused_or_carried (refusal proc d cause t s) s
          (carry_out-Occupied lib proc fuel n d reason cause t s))

  repair-Settled :
      (n : ℕ) (d : Disposition) (reason : String) (s : InstanceState)
      → Settled (repair proc lib fuel n d reason s)
  unfolding repair
  repair-Settled n d reason s =
      if-Settled (not (same_incident (open_incident s) n)) s _
        (if-Settled (is_blank reason) s _ (repair_cause-Settled n d reason (causes s) s))

  step-Settled : (c : Command) (s : InstanceState) → Settled (step lib proc fuel c s)
  unfolding step step_start
  step-Settled (Command.start v) s = start_from-Settled s.status v s
  step-Settled (Command.complete_work_item id patch) s = work-Settled id patch s
  step-Settled (Command.raise_error id c) s = raise_error-Settled id c s
  step-Settled (Command.fire_timer id) s = fire_timer-Settled id s
  step-Settled (Command.deliver_message id patch) s = message-Settled id patch s
  step-Settled (Command.complete_decision token answer reason) s =
      decision-Settled token answer reason s
  step-Settled (Command.repair n d reason) s = repair-Settled n d reason s

  -- Whichever the command and the state, a command that is accepted does not leave an instance
  -- active with no token.
  pub step-occupied :
      (c : Command) (s : InstanceState) (es : List Event)
      → (step lib proc fuel c s).1 ≡ events es
      → (step lib proc fuel c s).0.status ≡ active
      → (step lib proc fuel c s).0.tokens ≢ []
  step-occupied c s es e h = (step-Settled c s).settled es e h
