-- ===== src/Step/Claims/Arrivals.antt =====
-- The claims on tokens under the commands FireTimer and DeliverMessage (step.rs).
use mathlib.Core.Path.{subst}
use rbpmn.Common.{ℕ, ◌≡◌, refl, sym, ◌∙◌, not, none, some, nowhere, ◌==◌, ==_iff}
use rbpmn.Common.Maps.{get}
use rbpmn.Json.{Value}
use rbpmn.Process.{NodeIx, ExecutableProcess, Platform, kind_of, boundary_interrupts}
use rbpmn.State.{
  InstanceState, TokenId, Token, WaitKind, work_item, timer, message, event_gateway, TimerState,
  SubscriptionState,
}
use rbpmn.Step.Outcome.{Advancer, fault, lost_token, in_scope, completed}
use rbpmn.Step.Withdraw.{withdraw_arms}
use rbpmn.Step.Arm.{is_cycle, is_last, counted_down, rearm_cycle}
use rbpmn.Step.Advance.{unpark, leave_single}
use rbpmn.Step.Boundary.{take_gateway_path}
use rbpmn.Step.Commands.{
  timer_side_path, fire_boundary, fire_on, fire, message_side_path, deliver_boundary, deliver_on,
  deliver,
}
use rbpmn.Step.Claims.{
  timer_of, subscription_of, item_of, host_of, holdings, Names, Fits, Unnamed, IsSound, IsTended,
}
use rbpmn.Step.Claims.Update.{shrink}
use rbpmn.Step.Claims.Queue.{unpark-Hand}
use rbpmn.Step.Claims.Less.{on_option}
use rbpmn.Step.Claims.Reduce.{withdraw_arms-Reduces}
use rbpmn.Step.Claims.Moves.{Keeps, keep, then-Keeps, on_test, leave_single-Keeps}
use rbpmn.Step.Claims.Install.{Docked, TakesArms}
use rbpmn.Step.Claims.Arms.{record_timer-IsSound, subscribe-ArmKeeps, after_arming}
use rbpmn.Step.Claims.Enter.{on_if, run-Keeps}
use rbpmn.Step.Claims.Release.{Unasked, Fits-of, untimed, unsubscribed}
use rbpmn.Step.Claims.Boundary.{
  disarmed, interrupt_host-Keeps, spawn_side_token-Keeps, take_gateway_path-Keeps,
}
use rbpmn.Step.Claims.Items.{patched}

-- The host of an arm that goes off, in the state that the arm has left.
record Host (k : TokenId) (t : Token) (a : Advancer) : Type 0 where
  sound : IsSound a
  parked : get k a.state.tokens ≡ some t
  unasked : Unasked k a

takes-Docked : {k : TokenId} {t : Token} {a : Advancer} → Host k t a → TakesArms t.wait → Docked a k
takes-Docked {k} {t} h takes = record {
  at = t;
  parked = h.parked;
  takes = takes;
  unasked = h.unasked;
}

module _ (lib : Platform) (proc : ExecutableProcess) (fuel : ℕ) where
  rearm_cycle-IsSound :
      (id : ℕ) (t : TimerState) (a : Advancer)
      → IsSound a
      → Docked a t.token
      → IsSound (rearm_cycle lib proc id t a)
  unfolding rearm_cycle
  rearm_cycle-IsSound id t a s d = on_if IsSound (not (is_cycle t.due)) s (
      on_if IsSound (is_last (counted_down t.remaining)) s (
        record_timer-IsSound lib proc t.token t.element t.due (counted_down t.remaining) (some id) a
          s d))

  fire_boundary-Keeps :
      (id : ℕ) (t : TimerState) (host : Token) (a : Advancer)
      → Host t.token host a
      → TakesArms host.wait
      → Keeps (fire_boundary lib proc fuel id t host a)
  unfolding fire_boundary timer_side_path
  fire_boundary-Keeps id t host a h takes =
      then-Keeps _
        (on_test (boundary_interrupts (kind_of proc t.element))
          (λ _. interrupt_host-Keeps proc t.token t.element a h.sound h.unasked)
          (λ _. spawn_side_token-Keeps proc t.element _ (
            rearm_cycle-IsSound id t (in_scope host.scope a) h.sound
              (record { at = host; parked = h.parked; takes = takes; unasked = h.unasked }))))
        (run-Keeps lib proc fuel)

  -- The race at a gateway: its arms are withdrawn, and its token goes on.
  gateway-Keeps :
      (k : TokenId) (host : Token) (winner : NodeIx) (a : Advancer)
      → Host k host a
      → host.wait ≡ event_gateway
      → Keeps (take_gateway_path proc k host.node winner (withdraw_arms proc (some k) a))
  unfolding withdraw_arms
  gateway-Keeps k host winner a h w =
      take_gateway_path-Keeps proc k host host.node winner _
        ((withdraw_arms-Reduces proc (some k) a).sound none h.sound) h.parked
        (disarmed proc k a
          (λ i n. subst (Fits (item_of i)) w (Fits-of a (item_of i) h.sound h.parked n))
          (λ i n. subst (Fits (host_of i)) w (Fits-of a (host_of i) h.sound h.parked n)))
        h.unasked

  fire_on-Keeps :
      (w : WaitKind) (id : ℕ) (t : TimerState) (host : Token) (a : Advancer)
      → Host t.token host a
      → host.wait ≡ w
      → ¬ Names (holdings a.state) t.token (timer_of id)
      → Keeps (fire_on lib proc fuel w id t host a)
  unfolding fire_on
  fire_on-Keeps (timer tid) id t host a h w gone =
      on_test (tid == id)
        (λ y.
          let own = (==_iff tid id).0 y in
          let (left, hand) = unpark-Hand t.token host h.sound h.parked (alone own) h.unasked in
          then-Keeps _ (leave_single-Keeps proc t.token t.element _ left hand)
            (run-Keeps lib proc fuel))
        (λ _. keep h.sound)
    where
      alone : tid ≡ id → Unnamed (holdings a.state) t.token
      alone own (timer_of i) n =
          let fit = subst (Fits (timer_of i)) w (Fits-of a (timer_of i) h.sound h.parked n) in
          gone (subst (λ j. Names (holdings a.state) t.token (timer_of j)) (sym fit ∙ own) n)
      alone own (subscription_of i) n =
          subst (Fits (subscription_of i)) w (Fits-of a (subscription_of i) h.sound h.parked n)
      alone own (item_of i) n =
          subst (Fits (item_of i)) w (Fits-of a (item_of i) h.sound h.parked n)
      alone own (host_of i) n =
          subst (Fits (host_of i)) w (Fits-of a (host_of i) h.sound h.parked n)
  fire_on-Keeps (work_item i) id t host a h w gone =
      fire_boundary-Keeps id t host a h (subst TakesArms (sym w) tt)
  fire_on-Keeps (message i) id t host a h w gone =
      fire_boundary-Keeps id t host a h (subst TakesArms (sym w) tt)
  fire_on-Keeps (WaitKind.scope i) id t host a h w gone =
      fire_boundary-Keeps id t host a h (subst TakesArms (sym w) tt)
  fire_on-Keeps event_gateway id t host a h w gone =
      then-Keeps _
        (gateway-Keeps t.token host t.element (in_scope host.scope a)
          (record { sound = h.sound; parked = h.parked; unasked = h.unasked }) w)
        (run-Keeps lib proc fuel)
  fire_on-Keeps _ id t host a h w gone = keep h.sound

  pub fire-Keeps :
      (id : ℕ) (t : TimerState) (s : InstanceState) → IsTended s → Keeps (fire lib proc fuel id t s)
  unfolding fire
  fire-Keeps id t s h =
      let left = shrink h (λ k c n. (untimed id k c n).0) in
      on_option Keeps (get t.token s.tokens) (λ _. keep left)
        (λ host e.
          fire_on-Keeps host.wait id t host _
            (record { sound = left; parked = e; unasked = λ j i. nowhere i }) refl
            (λ n. (untimed id t.token (timer_of id) n).1 refl))

  deliver_boundary-Keeps :
      (sub : SubscriptionState) (host : Token) (a : Advancer)
      → Host sub.token host a
      → TakesArms host.wait
      → Keeps (deliver_boundary lib proc fuel sub host a)
  unfolding deliver_boundary message_side_path
  deliver_boundary-Keeps sub host a h takes =
      then-Keeps _
        (on_test (boundary_interrupts (kind_of proc sub.element))
          (λ _. interrupt_host-Keeps proc sub.token sub.element a h.sound h.unasked)
          (λ _.
            after_arming
              (subscribe-ArmKeeps lib proc sub.token sub.element (in_scope host.scope a) h.sound
                (record { at = host; parked = h.parked; takes = takes; unasked = h.unasked }))
              (λ _ b s d. spawn_side_token-Keeps proc sub.element b s)))
        (run-Keeps lib proc fuel)

  -- A catch receives: its arms are withdrawn, and its token goes on.
  caught-Keeps :
      (sid : ℕ) (sub : SubscriptionState) (host : Token) (a : Advancer)
      → Host sub.token host a
      → host.wait ≡ message sid
      → Keeps (
          leave_single proc sub.token sub.element
            (completed proc sub.element (unpark sub.token (withdraw_arms proc (some sub.token) a))))
  unfolding withdraw_arms
  caught-Keeps sid sub host a h w =
      let (left, hand) =
        unpark-Hand sub.token host
          ((withdraw_arms-Reduces proc (some sub.token) a).sound none h.sound) h.parked
          (disarmed proc sub.token a
            (λ i n. subst (Fits (item_of i)) w (Fits-of a (item_of i) h.sound h.parked n))
            (λ i n. subst (Fits (host_of i)) w (Fits-of a (host_of i) h.sound h.parked n)))
          h.unasked in
      leave_single-Keeps proc sub.token sub.element _ left hand

  deliver_on-Keeps :
      (w : WaitKind) (id : ℕ) (sub : SubscriptionState) (host : Token) (a : Advancer)
      → Host sub.token host a
      → host.wait ≡ w
      → Keeps (deliver_on lib proc fuel w id sub host a)
  unfolding deliver_on
  deliver_on-Keeps (message sid) id sub host a h w =
      on_test (sid == id)
        (λ _.
          then-Keeps _
            (caught-Keeps sid sub host (in_scope host.scope a)
              (record { sound = h.sound; parked = h.parked; unasked = h.unasked }) w)
            (run-Keeps lib proc fuel))
        (λ _. deliver_boundary-Keeps sub host a h (subst TakesArms (sym w) tt))
  deliver_on-Keeps (work_item i) id sub host a h w =
      deliver_boundary-Keeps sub host a h (subst TakesArms (sym w) tt)
  deliver_on-Keeps (WaitKind.scope i) id sub host a h w =
      deliver_boundary-Keeps sub host a h (subst TakesArms (sym w) tt)
  deliver_on-Keeps event_gateway id sub host a h w =
      then-Keeps _
        (gateway-Keeps sub.token host sub.element (in_scope host.scope a)
          (record { sound = h.sound; parked = h.parked; unasked = h.unasked }) w)
        (run-Keeps lib proc fuel)
  deliver_on-Keeps _ id sub host a h w = keep h.sound

  pub deliver-Keeps :
      (id : ℕ) (sub : SubscriptionState) (patch : Value) (s : InstanceState)
      → IsTended s
      → Keeps (deliver lib proc fuel id sub patch s)
  unfolding deliver
  deliver-Keeps id sub patch s h =
      let left = shrink h (unsubscribed (λ j. not (j == id))) in
      patched
        (λ a. Keeps (elim (get sub.token s.tokens) [
          | none ↦ fault lost_token a
          | some host ↦ deliver_on lib proc fuel host.wait id sub host a
        ]))
        patch _
        (λ v es.
          on_option Keeps (get sub.token s.tokens) (λ _. keep left)
            (λ host e.
              deliver_on-Keeps host.wait id sub host _
                (record { sound = left; parked = e; unasked = λ j i. nowhere i }) refl))
