-- ===== src/Step/Errors.antt =====
-- What a refused command leaves behind.
use rbpmn.Common.{
  ℕ, ◌≡◌, refl, Bool, true, false, Option, none, some, arith, String, List, [], ◌∷◌, not, ◌&&◌,
  is_nil, if◌then◌else◌,
}
use rbpmn.Common.Maps.{get}
use rbpmn.Json.{Value}
use rbpmn.Process.{ExecutableProcess, Platform, ExecKind, business_rule, kind_of}
use rbpmn.State.{
  InstanceState, InstanceStatus, Token, TokenId, WaitKind, created, decision, SubscriptionState,
  open_incident, is_active,
}
use rbpmn.Step.Outcome.{
  Command, Run, ok, fault, exhausted, Stepped, Reply, refused, finish, StepError, invariant,
  Disposition, Refusal, repair_refused,
}
use rbpmn.Step.Arm.{ArmKey, opens, fails, no_arm}
use rbpmn.Step.Commands.Repair.{
  repair, repair_cause, refusal, is_abandon_instance, same_incident, is_blank, causes,
}
use rbpmn.Step.Commands.{
  step, start_from, step_start, step_complete_work_item, step_raise_error, step_fire_timer,
  step_complete_decision, step_deliver_message, decide_at, decide_waiting, deliver_checked, deliver,
  rearms,
}

abbrev pub is_invariant : StepError → Bool
is_invariant (invariant _) = true
is_invariant _ = false

-- Any refusal but an invariant's comes with the state as it was.
record Spares (s : InstanceState) (x : Stepped) : Type 0 where
  unchanged : (e : StepError) → x.1 ≡ refused e → is_invariant e ≡ false → x.0 ≡ s

finish-Spares : (s : InstanceState) (r : Run) → Spares s (finish r)
unfolding finish
finish-Spares s (ok a) = record { unchanged = λ e h n. cc }
finish-Spares s (fault f a) = record { unchanged = λ e h n. ground arith }
finish-Spares s (exhausted a) = record { unchanged = λ e h n. cc }

same-Spares : (s : InstanceState) (r : Reply) → Spares s (s, r)
same-Spares s r = record { unchanged = λ e h n. refl }

-- A guard, and a lookup that may be refused.
if-Spares :
    (b : Bool) (s : InstanceState) (r : Reply) {y : Stepped}
    → Spares s y
    → Spares s (if b then (s, r) else y)
if-Spares true s r p = same-Spares s r
if-Spares false s r p = p

elim-Spares :
    {A : Type 0} (o : Option A) (s : InstanceState) (r : Reply) {f : A → Stepped}
    → ((a : A) → Spares s (f a))
    → Spares s (elim o [ none ↦ (s, r) | some a ↦ f a ])
elim-Spares none s r p = same-Spares s r
elim-Spares (some a) s r p = p a

module _ (lib : Platform) (proc : ExecutableProcess) (fuel : ℕ) where
  start_from-Spares :
      (st : InstanceStatus) (v : Value) (s : InstanceState)
      → Spares s (start_from lib proc fuel st v s)
  unfolding start_from
  start_from-Spares created v s = finish-Spares s _
  start_from-Spares _ v s = same-Spares s _

  complete_work_item-Spares :
      (id : ℕ) (patch : Value) (s : InstanceState)
      → Spares s (step_complete_work_item lib proc fuel id patch s)
  unfolding step_complete_work_item
  complete_work_item-Spares id patch s = if-Spares (not (is_active s.status)) s _ (
      elim-Spares (get id s.work_items) s _
        (λ item. if-Spares (not item.is_open) s _ (finish-Spares s _)))

  raise_error-Spares :
      (id : ℕ) (code : Option String) (s : InstanceState)
      → Spares s (step_raise_error lib proc fuel id code s)
  unfolding step_raise_error
  raise_error-Spares id code s = if-Spares (not (is_active s.status)) s _ (
      elim-Spares (get id s.work_items) s _
        (λ item. if-Spares (not item.is_open) s _ (finish-Spares s _)))

  fire_timer-Spares : (id : ℕ) (s : InstanceState) → Spares s (step_fire_timer lib proc fuel id s)
  unfolding step_fire_timer
  fire_timer-Spares id s =
      if-Spares (not (is_active s.status)) s _
        (elim-Spares (get id s.timers) s _ (λ t. finish-Spares s _))

  decide_at-Spares :
      (k : ExecKind) (token : TokenId) (t : Token) (answer : Option Value) (reason : Option String)
      (s : InstanceState)
      → Spares s (decide_at lib proc fuel k token t answer reason s)
  unfolding decide_at
  decide_at-Spares (business_rule _ _) token t answer reason s = finish-Spares s _
  decide_at-Spares _ token t answer reason s = same-Spares s _

  decide_waiting-Spares :
      (w : WaitKind) (token : TokenId) (t : Token) (answer : Option Value) (reason : Option String)
      (s : InstanceState)
      → Spares s (decide_waiting lib proc fuel w token t answer reason s)
  unfolding decide_waiting
  decide_waiting-Spares decision token t answer reason s =
      decide_at-Spares (kind_of proc t.node) token t answer reason s
  decide_waiting-Spares _ token t answer reason s = same-Spares s _

  complete_decision-Spares :
      (token : TokenId) (answer : Option Value) (reason : Option String) (s : InstanceState)
      → Spares s (step_complete_decision lib proc fuel token answer reason s)
  unfolding step_complete_decision
  complete_decision-Spares token answer reason s = if-Spares (not (is_active s.status)) s _ (
      elim-Spares (get token s.tokens) s _
        (λ t. decide_waiting-Spares t.wait token t answer reason s))

  deliver_checked-Spares :
      (k : ArmKey) (id : ℕ) (sub : SubscriptionState) (patch : Value) (s : InstanceState)
      → Spares s (deliver_checked lib proc fuel k id sub patch s)
  unfolding deliver_checked
  deliver_checked-Spares no_arm id sub patch s = same-Spares s _
  deliver_checked-Spares (fails f) id sub patch s = same-Spares s _
  deliver_checked-Spares (opens m k) id sub patch s = finish-Spares s _

  deliver_either :
      (b : Bool) (k : ArmKey) (id : ℕ) (sub : SubscriptionState) (patch : Value) (s : InstanceState)
      → Spares s (
          if b
          then deliver_checked lib proc fuel k id sub patch s
          else finish (deliver lib proc fuel id sub patch s))
  deliver_either true k id sub patch s = deliver_checked-Spares k id sub patch s
  deliver_either false k id sub patch s = finish-Spares s _

  deliver_message-Spares :
      (id : ℕ) (patch : Value) (s : InstanceState)
      → Spares s (step_deliver_message lib proc fuel id patch s)
  unfolding step_deliver_message
  deliver_message-Spares id patch s = if-Spares (not (is_active s.status)) s _ (
      elim-Spares (get id s.subscriptions) s _
        (λ sub. deliver_either (rearms lib proc fuel (kind_of proc sub.element)) _ id sub patch s))

  refused_or_carried :
      (why : Option Refusal) (r : Run) (s : InstanceState)
      → Spares s (elim why [ some w ↦ (s, refused (repair_refused w)) | none ↦ finish r ])
  refused_or_carried none r s = finish-Spares s r
  refused_or_carried (some w) r s = same-Spares s _

  repair_cause-Spares :
      (n : ℕ) (d : Disposition) (reason : String) (ts : List (TokenId × Token)) (s : InstanceState)
      → Spares s (repair_cause proc lib fuel n d reason ts s)
  unfolding repair_cause
  repair_cause-Spares n d reason [] s = same-Spares s _
  repair_cause-Spares n d reason ((cause, parked) ∷ others) s =
      if-Spares (not (is_nil others) && not (is_abandon_instance d)) s _
        (refused_or_carried (refusal proc d cause parked s) _ s)

  repair-Spares :
      (n : ℕ) (d : Disposition) (reason : String) (s : InstanceState)
      → Spares s (repair proc lib fuel n d reason s)
  unfolding repair
  repair-Spares n d reason s =
      if-Spares (not (same_incident (open_incident s) n)) s _
        (if-Spares (is_blank reason) s _ (repair_cause-Spares n d reason (causes s) s))

  step-Spares : (c : Command) (s : InstanceState) → Spares s (step lib proc fuel c s)
  unfolding step step_start
  step-Spares (Command.start v) s = start_from-Spares s.status v s
  step-Spares (Command.complete_work_item id patch) s = complete_work_item-Spares id patch s
  step-Spares (Command.raise_error id code) s = raise_error-Spares id code s
  step-Spares (Command.fire_timer id) s = fire_timer-Spares id s
  step-Spares (Command.deliver_message id patch) s = deliver_message-Spares id patch s
  step-Spares (Command.complete_decision token answer reason) s =
      complete_decision-Spares token answer reason s
  step-Spares (Command.repair n d reason) s = repair-Spares n d reason s

  -- A command that is refused with any error but an invariant's has changed nothing, whichever the
  -- command and the state.
  pub step-refused_unchanged :
      (c : Command) (s : InstanceState) (e : StepError)
      → (step lib proc fuel c s).1 ≡ refused e
      → is_invariant e ≡ false
      → (step lib proc fuel c s).0 ≡ s
  step-refused_unchanged c s e h n = (step-Spares c s).unchanged e h n
