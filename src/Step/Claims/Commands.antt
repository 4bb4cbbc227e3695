-- ===== src/Step/Claims/Commands.antt =====
-- The claims on tokens under `step` (step.rs), command by command.
use mathlib.Core.Path.{subst}
use rbpmn.Common.{
  ℕ, ◌≡◌, refl, sym, Bool, true, false, Option, none, some, String, List, [], ◌∷◌, not, ◌&&◌, Among,
  first, is_nil, Among-filter, if◌then◌else◌,
}
use rbpmn.Common.Maps.{get}
use rbpmn.Common.Maps.Order.{Among-get}
use rbpmn.Json.{Value}
use rbpmn.Process.{ExecutableProcess, Platform, ExecKind, business_rule, kind_of}
use rbpmn.State.{
  InstanceState, InstanceStatus, Token, TokenId, WaitKind, created, decision, incident,
  SubscriptionState, open_incident, is_active,
}
use rbpmn.Step.Outcome.{
  Command, Run, ok, fault, exhausted, Stepped, Reply, refused, finish, Disposition, Refusal,
  repair_refused,
}
use rbpmn.Step.Arm.{ArmKey, opens, fails, no_arm}
use rbpmn.Step.Commands.Repair.{
  repair, repair_cause, refusal, is_abandon_instance, is_incident, same_incident, is_blank, causes,
}
use rbpmn.Step.Commands.{
  step, start_from, step_start, step_complete_work_item, step_raise_error, step_fire_timer,
  step_complete_decision, step_deliver_message, decide_at, decide_waiting, deliver_checked, deliver,
  rearms,
}
use rbpmn.Step.Claims.{IsTended}
use rbpmn.Step.Claims.Queue.{dequeue_all, forget_asked, minted_one, fresh-Hand, enqueue}
use rbpmn.Step.Claims.Moves.{Keeps}
use rbpmn.Step.Claims.Enter.{run-Keeps}
use rbpmn.Step.Claims.Items.{complete_item-Keeps, answer_decision-Keeps, fail_item-Keeps}
use rbpmn.Step.Claims.Arrivals.{fire-Keeps, deliver-Keeps}
use rbpmn.Step.Claims.Repair.{carry_out-Keeps}

record Tends (x : Stepped) : Type 0 where
  tends : IsTended x.0

finish-Tends : (r : Run) → Keeps r → Tends (finish r)
unfolding finish
finish-Tends (ok a) k = record { tends = forget_asked (dequeue_all k.kept) }
finish-Tends (fault e a) k = record { tends = forget_asked (dequeue_all k.kept) }
finish-Tends (exhausted a) k = record { tends = forget_asked (dequeue_all k.kept) }

same-Tends : {s : InstanceState} {r : Reply} → IsTended s → Tends (s, r)
same-Tends h = record { tends = h }

if-Tends :
    (b : Bool) (s : InstanceState) (r : Reply) {y : Stepped}
    → IsTended s
    → (b ≡ false → Tends y)
    → Tends (if b then (s, r) else y)
if-Tends true s r h p = same-Tends h
if-Tends false s r h p = p refl

elim-Tends :
    {A : Type 0} (o : Option A) (s : InstanceState) (r : Reply) {f : A → Stepped}
    → IsTended s
    → ((a : A) → o ≡ some a → Tends (f a))
    → Tends (elim o [ none ↦ (s, r) | some a ↦ f a ])
elim-Tends none s r h p = same-Tends h
elim-Tends (some a) s r h p = p a refl

shown : (b : Bool) → not b ≡ false → b ≡ true
shown true e = refl
shown false e = cc

incident_of : (w : WaitKind) → is_incident w ≡ true → w ≡ incident
incident_of incident e = refl
incident_of _ e = cc

cause-parked :
    (s : InstanceState) (k : TokenId) (t : Token) (others : List (TokenId × Token))
    → IsTended s
    → causes s ≡ (k, t) ∷ others
    → (get k s.tokens ≡ some t) × (t.wait ≡ incident)
unfolding causes
cause-parked s k t others h e =
    let (m, p) =
      Among-filter (λ x. is_incident x.1.wait) s.tokens (subst (Among (k, t)) (sym e) first) in
    (Among-get k t s.tokens h.ordered m, incident_of t.wait p)

module _ (lib : Platform) (proc : ExecutableProcess) (fuel : ℕ) where
  start_from-Tends :
      (st : InstanceStatus) (v : Value) (s : InstanceState)
      → IsTended s
      → Tends (start_from lib proc fuel st v s)
  unfolding start_from
  start_from-Tends created v s h =
      finish-Tends _ (run-Keeps lib proc fuel _ (enqueue _ (minted_one h) (fresh-Hand h)))
  start_from-Tends _ v s h = same-Tends h

  work-Tends :
      (id : ℕ) (patch : Value) (s : InstanceState)
      → IsTended s
      → Tends (step_complete_work_item lib proc fuel id patch s)
  unfolding step_complete_work_item
  work-Tends id patch s h = if-Tends (not (is_active s.status)) s _ h (λ _.
      elim-Tends (get id s.work_items) s _ h (λ item e. if-Tends (not item.is_open) s _ h (λ o.
        finish-Tends _
          (complete_item-Keeps lib proc fuel id item patch s h e (shown item.is_open o)))))

  raise_error-Tends :
      (id : ℕ) (c : Option String) (s : InstanceState)
      → IsTended s
      → Tends (step_raise_error lib proc fuel id c s)
  unfolding step_raise_error
  raise_error-Tends id c s h = if-Tends (not (is_active s.status)) s _ h (λ _.
      elim-Tends (get id s.work_items) s _ h (λ item e. if-Tends (not item.is_open) s _ h (λ o.
        finish-Tends _ (fail_item-Keeps lib proc fuel id item c s h e (shown item.is_open o)))))

  fire_timer-Tends :
      (id : ℕ) (s : InstanceState) → IsTended s → Tends (step_fire_timer lib proc fuel id s)
  unfolding step_fire_timer
  fire_timer-Tends id s h = if-Tends (not (is_active s.status)) s _ h (λ _.
      elim-Tends (get id s.timers) s _ h
        (λ t _. finish-Tends _ (fire-Keeps lib proc fuel id t s h)))

  decide_at-Tends :
      (k : ExecKind) (token : TokenId) (t : Token) (answer : Option Value) (reason : Option String)
      (s : InstanceState)
      → IsTended s
      → get token s.tokens ≡ some t
      → t.wait ≡ decision
      → Tends (decide_at lib proc fuel k token t answer reason s)
  unfolding decide_at
  decide_at-Tends (business_rule _ path) token t answer reason s h e w =
      finish-Tends _ (answer_decision-Keeps lib proc fuel token t path answer reason s h e w)
  decide_at-Tends _ token t answer reason s h e w = same-Tends h

  decide_waiting-Tends :
      (w : WaitKind) (token : TokenId) (t : Token) (answer : Option Value) (reason : Option String)
      (s : InstanceState)
      → IsTended s
      → get token s.tokens ≡ some t
      → t.wait ≡ w
      → Tends (decide_waiting lib proc fuel w token t answer reason s)
  unfolding decide_waiting
  decide_waiting-Tends decision token t answer reason s h e w =
      decide_at-Tends (kind_of proc t.node) token t answer reason s h e w
  decide_waiting-Tends _ token t answer reason s h e w = same-Tends h

  decision-Tends :
      (token : TokenId) (answer : Option Value) (reason : Option String) (s : InstanceState)
      → IsTended s
      → Tends (step_complete_decision lib proc fuel token answer reason s)
  unfolding step_complete_decision
  decision-Tends token answer reason s h = if-Tends (not (is_active s.status)) s _ h (λ _.
      elim-Tends (get token s.tokens) s _ h
        (λ t e. decide_waiting-Tends t.wait token t answer reason s h e refl))

  checked-Tends :
      (b : Bool) (k : ArmKey) (id : ℕ) (sub : SubscriptionState) (patch : Value) (s : InstanceState)
      → IsTended s
      → Tends (
          if b
          then deliver_checked lib proc fuel k id sub patch s
          else finish (deliver lib proc fuel id sub patch s))
  unfolding deliver_checked
  checked-Tends true no_arm id sub patch s h = same-Tends h
  checked-Tends true (fails f) id sub patch s h = same-Tends h
  checked-Tends true (opens m k) id sub patch s h =
      finish-Tends _ (deliver-Keeps lib proc fuel id sub patch s h)
  checked-Tends false k id sub patch s h =
      finish-Tends _ (deliver-Keeps lib proc fuel id sub patch s h)

  message-Tends :
      (id : ℕ) (patch : Value) (s : InstanceState)
      → IsTended s
      → Tends (step_deliver_message lib proc fuel id patch s)
  unfolding step_deliver_message
  message-Tends id patch s h = if-Tends (not (is_active s.status)) s _ h (λ _.
      elim-Tends (get id s.subscriptions) s _ h (λ sub _.
        checked-Tends (rearms lib proc fuel (kind_of proc sub.element)) _ id sub patch s h))

  refused_or_carried :
      (why : Option Refusal) (r : Run) (s : InstanceState)
      → IsTended s
      → Keeps r
      → Tends (elim why [ some w ↦ (s, refused (repair_refused w)) | none ↦ finish r ])
  refused_or_carried none r s h k = finish-Tends r k
  refused_or_carried (some w) r s h k = same-Tends h

  repair_cause-Tends :
      (n : ℕ) (d : Disposition) (reason : String) (ts : List (TokenId × Token)) (s : InstanceState)
      → IsTended s
      → causes s ≡ ts
      → Tends (repair_cause proc lib fuel n d reason ts s)
  unfolding repair_cause
  repair_cause-Tends n d reason [] s h e = same-Tends h
  repair_cause-Tends n d reason ((cause, t) ∷ others) s h e =
      let (parked, waits) = cause-parked s cause t others h e in
      if-Tends (not (is_nil others) && not (is_abandon_instance d)) s _ h (λ _.
        refused_or_carried (refusal proc d cause t s) _ s h
          (carry_out-Keeps proc lib fuel n d reason cause t s h parked waits))

  repair-Tends :
      (n : ℕ) (d : Disposition) (reason : String) (s : InstanceState)
      → IsTended s
      → Tends (repair proc lib fuel n d reason s)
  unfolding repair
  repair-Tends n d reason s h = if-Tends (not (same_incident (open_incident s) n)) s _ h (λ _.
      if-Tends (is_blank reason) s _ h (λ _. repair_cause-Tends n d reason (causes s) s h refl))

  step-Tends : (c : Command) (s : InstanceState) → IsTended s → Tends (step lib proc fuel c s)
  unfolding step step_start
  step-Tends (Command.start v) s h = start_from-Tends s.status v s h
  step-Tends (Command.complete_work_item id patch) s h = work-Tends id patch s h
  step-Tends (Command.raise_error id c) s h = raise_error-Tends id c s h
  step-Tends (Command.fire_timer id) s h = fire_timer-Tends id s h
  step-Tends (Command.deliver_message id patch) s h = message-Tends id patch s h
  step-Tends (Command.complete_decision token answer reason) s h =
      decision-Tends token answer reason s h
  step-Tends (Command.repair n d reason) s h = repair-Tends n d reason s h

  -- Whichever the command, and whether it is accepted, refused or faults: where every armed timer,
  -- subscription and open work item names a parked token that waits as it needs, every scope a token
  -- that waits for it or is gone, the tokens are in the order of their ids and no id in use is still
  -- to be given out, this holds of the state after it too.
  pub step-IsTended :
      (c : Command) (s : InstanceState) → IsTended s → IsTended (step lib proc fuel c s).0
  step-IsTended c s h = (step-Tends c s h).tends
