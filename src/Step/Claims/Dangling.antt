-- ===== src/Step/Claims/Dangling.antt =====
-- The faults that name a token which is gone, in answers to FireTimer and DeliverMessage (step.rs);
-- after `NeverFiredADanglingTimer` of spec/TimerTeardown.tla.
pub mod Inner
pub mod Host
use mathlib.Core.Path.{subst}
use rbpmn.Common.{
  ℕ, ◌≡◌, ◌≢◌, refl, sym, ap, ◌∙◌, Bool, true, false, not, Option, none, some, String, List, [],
  ◌∷◌, ◌==◌, ==_iff, if◌then◌else◌,
}
use rbpmn.Common.Maps.{get, get-Among}
use rbpmn.Json.{Value}
use rbpmn.Process.{ExecutableProcess, Platform, NodeIx, kind_of, boundary_interrupts}
use rbpmn.State.{
  InstanceState, TokenId, Token, WaitKind, work_item, timer, message, event_gateway, TimerState,
  SubscriptionState, InstanceStatus, is_active,
}
use rbpmn.Step.Outcome.{
  Advancer, Run, ok, fault, exhausted, ◌>>=◌, Command, fire_timer, deliver_message, Stepped, Reply,
  refused, finish, StepError, invariant, instance_not_active, unknown_timer, unknown_subscription,
  boundary_cannot_rearm, new, Fault, lost_token, lost_item, in_scope,
}
use rbpmn.Step.Withdraw.{cancel_work_item}
use rbpmn.Step.Arm.{ArmKey, opens, fails, no_arm, subscribe}
use rbpmn.Step.Advance.Enter.{run}
use rbpmn.Step.Boundary.{
  interrupt_to_boundary, end_wait, interrupt_host, spawn_side_token, take_gateway_path,
  winning_flow,
}
use rbpmn.Step.Commands.{
  timer_side_path, fire_boundary, fire_on, fire, message_side_path, deliver_boundary, deliver_on,
  deliver, step, step_fire_timer, step_deliver_message, deliver_checked, rearms,
}
use rbpmn.Step.Claims.{
  timer_of, subscription_of, names_timer, names_subscription, Fits, Holds, IsTended,
}
use rbpmn.Step.Claims.Less.{on_option}
use rbpmn.Step.Claims.Install.{TakesArms}
use rbpmn.Step.Claims.Items.{patched}
use rbpmn.State
use rbpmn.Step.Claims.History.{parked_of, history, history-IsTended}
use rbpmn.Step.Claims.Dangling.Host.{
  IsHostWait, parked_option, interrupt_host-Sure, take_gateway_path-Sure,
}
use rbpmn.Step.Claims.Dangling.Inner.{
  is_dangling, Sure, sure_ok, sure_fault, sure_exhausted, if-Sure, then-Sure, leave_single-Sure,
  run-Sure, Sure-arming,
}

-- The commands that an arm sets off.
abbrev pub IsArrival : Command → Type 0
IsArrival (Command.fire_timer _) = Unit
IsArrival (Command.deliver_message _ _) = Unit
IsArrival _ = ⊥

-- Whether an answer names such a fault.
abbrev pub dangles : Reply → Bool
dangles (refused (invariant f)) = is_dangling f
dangles _ = false

dangles_of :
    (r : Reply)
    → ((f : Fault) → r ≡ refused (invariant f) → is_dangling f ≡ false)
    → dangles r ≡ false
dangles_of (refused (invariant f)) h = h f refl
dangles_of _ h = refl

invariant_inj : {x y : Fault} → refused (invariant x) ≡ refused (invariant y) → x ≡ y
invariant_inj e = cc

module _ (proc : ExecutableProcess) where
  module _ (lib : Platform) (fuel : ℕ) where
    fire_boundary-Sure :
        (id : ℕ) (t : TimerState) (host : Token) (a : Advancer)
        → get t.token a.state.tokens ≡ some host
        → IsHostWait host.wait
        → Sure (fire_boundary lib proc fuel id t host a)
    unfolding fire_boundary timer_side_path spawn_side_token
    fire_boundary-Sure id t host a e i =
        then-Sure
          (if-Sure (boundary_interrupts (kind_of proc t.element))
            (interrupt_host-Sure proc t.token t.element a host e i)
            (leave_single-Sure proc _ t.element _))
          (run-Sure proc lib fuel)

    fire_on-Sure :
        (w : WaitKind) (id : ℕ) (t : TimerState) (host : Token) (a : Advancer)
        → get t.token a.state.tokens ≡ some host
        → Fits (timer_of id) w
        → host.wait ≡ w
        → Sure (fire_on lib proc fuel w id t host a)
    unfolding fire_on
    fire_on-Sure (timer tid) id t host a e fit p =
        rw ((==_iff tid id).1 fit)
          (then-Sure (leave_single-Sure proc t.token t.element _) (run-Sure proc lib fuel))
    fire_on-Sure (work_item i) id t host a e fit p =
        fire_boundary-Sure id t host a e (subst IsHostWait (sym p) tt)
    fire_on-Sure (message i) id t host a e fit p =
        fire_boundary-Sure id t host a e (subst IsHostWait (sym p) tt)
    fire_on-Sure (WaitKind.scope i) id t host a e fit p =
        fire_boundary-Sure id t host a e (subst IsHostWait (sym p) tt)
    fire_on-Sure event_gateway id t host a e fit p =
        then-Sure (take_gateway_path-Sure proc t.token host.node t.element _)
          (run-Sure proc lib fuel)
    fire_on-Sure _ id t host a e fit p = absurd fit

    fire-Sure :
        (id : ℕ) (t : TimerState) (s : InstanceState)
        → IsTended s
        → get id s.timers ≡ some t
        → Sure (fire lib proc fuel id t s)
    unfolding fire
    fire-Sure id t s h g =
        let claimed =
          h.held t.token (timer_of id) (names_timer id t (get-Among id t s.timers g) refl)
            (λ y. y) in
        let (host, (e, _)) = parked_of (timer_of id) (get t.token s.tokens) claimed (λ y. y) in
        parked_option (get t.token s.tokens) _ e
          (λ u q. fire_on-Sure u.wait id t u _ q (subst (Holds (timer_of id)) q claimed) refl)

    deliver_boundary-Sure :
        (sub : SubscriptionState) (host : Token) (a : Advancer)
        → get sub.token a.state.tokens ≡ some host
        → IsHostWait host.wait
        → Sure (deliver_boundary lib proc fuel sub host a)
    unfolding deliver_boundary message_side_path spawn_side_token
    deliver_boundary-Sure sub host a e i =
        then-Sure
          (if-Sure (boundary_interrupts (kind_of proc sub.element))
            (interrupt_host-Sure proc sub.token sub.element a host e i)
            (Sure-arming (subscribe lib proc sub.token sub.element (in_scope host.scope a))
              (λ _ b. leave_single-Sure proc _ sub.element _)))
          (run-Sure proc lib fuel)

    deliver_on-Sure :
        (w : WaitKind) (id : ℕ) (sub : SubscriptionState) (host : Token) (a : Advancer)
        → get sub.token a.state.tokens ≡ some host
        → Fits (subscription_of id) w
        → host.wait ≡ w
        → Sure (deliver_on lib proc fuel w id sub host a)
    unfolding deliver_on
    deliver_on-Sure (message sid) id sub host a e fit p =
        if-Sure (sid == id)
          (then-Sure (leave_single-Sure proc sub.token sub.element _) (run-Sure proc lib fuel))
          (deliver_boundary-Sure sub host a e (subst IsHostWait (sym p) tt))
    deliver_on-Sure (work_item i) id sub host a e fit p =
        deliver_boundary-Sure sub host a e (subst IsHostWait (sym p) tt)
    deliver_on-Sure (WaitKind.scope i) id sub host a e fit p =
        deliver_boundary-Sure sub host a e (subst IsHostWait (sym p) tt)
    deliver_on-Sure event_gateway id sub host a e fit p =
        then-Sure (take_gateway_path-Sure proc sub.token host.node sub.element _)
          (run-Sure proc lib fuel)
    deliver_on-Sure _ id sub host a e fit p = absurd fit

    deliver-Sure :
        (id : ℕ) (sub : SubscriptionState) (patch : Value) (s : InstanceState)
        → IsTended s
        → get id s.subscriptions ≡ some sub
        → Sure (deliver lib proc fuel id sub patch s)
    unfolding deliver
    deliver-Sure id sub patch s h g =
        let claimed =
          h.held sub.token (subscription_of id)
            (names_subscription id sub (get-Among id sub s.subscriptions g) refl) (λ y. y) in
        let (host, (e, _)) =
          parked_of (subscription_of id) (get sub.token s.tokens) claimed (λ y. y) in
        patched
          (λ a. Sure (elim (get sub.token s.tokens) [
            | none ↦ fault lost_token a
            | some host ↦ deliver_on lib proc fuel host.wait id sub host a
          ]))
          patch _
          (λ v es. parked_option (get sub.token s.tokens) _ e (λ u q.
            deliver_on-Sure u.wait id sub u _ q (subst (Holds (subscription_of id)) q claimed)
              refl))

    -- An answer that does not name a token which is gone.
    record Firm (x : Stepped) : Type 0 where
      firm : (f : Fault) → x.1 ≡ refused (invariant f) → is_dangling f ≡ false

    finish-Firm : {r : Run} → Sure r → Firm (finish r)
    unfolding finish
    finish-Firm sure_ok = record { firm = λ f e. cc }
    finish-Firm (sure_fault h) = record { firm = λ f e. cc (h, e) }
    finish-Firm sure_exhausted = record { firm = λ f e. cc }

    if-Firm : (b : Bool) {x y : Stepped} → Firm x → Firm y → Firm (if b then x else y)
    if-Firm true p q = p
    if-Firm false p q = q

    fire_timer-Firm :
        (id : ℕ) (s : InstanceState) → IsTended s → Firm (step_fire_timer lib proc fuel id s)
    unfolding step_fire_timer
    fire_timer-Firm id s h =
        if-Firm (not (is_active s.status)) (record { firm = λ f e. cc })
          (on_option Firm (get id s.timers) (λ _. record { firm = λ f e. cc })
            (λ t g. finish-Firm (fire-Sure id t s h g)))

    checked-Firm :
        (k : ArmKey) (id : ℕ) (sub : SubscriptionState) (patch : Value) (s : InstanceState)
        → IsTended s
        → get id s.subscriptions ≡ some sub
        → Firm (deliver_checked lib proc fuel k id sub patch s)
    unfolding deliver_checked
    checked-Firm no_arm id sub patch s h g = record {
      firm = λ f e. subst (λ y. is_dangling y ≡ false) (invariant_inj e) refl;
    }
    checked-Firm (fails x) id sub patch s h g = record { firm = λ f e. cc }
    checked-Firm (opens m t) id sub patch s h g = finish-Firm (deliver-Sure id sub patch s h g)

    deliver_message-Firm :
        (id : ℕ) (patch : Value) (s : InstanceState)
        → IsTended s
        → Firm (step_deliver_message lib proc fuel id patch s)
    unfolding step_deliver_message
    deliver_message-Firm id patch s h =
        if-Firm (not (is_active s.status)) (record { firm = λ f e. cc })
          (on_option Firm (get id s.subscriptions) (λ _. record { firm = λ f e. cc })
            (λ sub g.
              if-Firm (rearms lib proc fuel (kind_of proc sub.element))
                (checked-Firm _ id sub patch s h g)
                (finish-Firm (deliver-Sure id sub patch s h g))))

    arrival-Firm :
        (c : Command) (s : InstanceState) → IsArrival c → IsTended s → Firm (step lib proc fuel c s)
    unfolding step
    arrival-Firm (Command.fire_timer id) s i h = fire_timer-Firm id s h
    arrival-Firm (Command.deliver_message id patch) s i h = deliver_message-Firm id patch s h
    arrival-Firm _ s i h = absurd i

    -- After any sequence of commands on a new instance, a timer that fires, or a message that is
    -- delivered, is never refused with the invariant that the token, or the host, of the arm is gone,
    -- nor with one of those that the token waits for something else: for an arm that is not
    -- this one, or as no host of a boundary does.
    pub arrival-dangles :
        (cs : List Command) (c : Command)
        → IsArrival c
        → dangles (step lib proc fuel c (history lib proc fuel cs State.new)).1 ≡ false
    arrival-dangles cs c i =
        dangles_of (step lib proc fuel c (history lib proc fuel cs State.new)).1
          (arrival-Firm c (history lib proc fuel cs State.new) i
            (history-IsTended lib proc fuel cs)).firm
