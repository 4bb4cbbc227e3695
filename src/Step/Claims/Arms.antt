-- ===== src/Step/Claims/Arms.antt =====
-- The claims on tokens under arm_timer, subscribe and arm_boundaries (step.rs), on a parked token.
use rbpmn.Common.{ℕ, Option, none, some, String, List, [], ◌∷◌}
use rbpmn.Process.{
  NodeIx, FlowIx, ExecutableProcess, ExecKind, TimerSource, Platform, Resolved, resolved,
  unresolved, resolve, ResolveFailure, TimerDue, timer_catch, message_catch, timer_boundary,
  message_boundary, kind_of,
}
use rbpmn.State.{TokenId}
use rbpmn.Step.Outcome.{Advancer, Run, ok, fault, ArmFailure, panicked, bad_gateway_target}
use rbpmn.Step.Arm.{
  Arming, armed, frozen, broken, ArmKey, opens, fails, no_arm, arm_key, arm_timer, record_timer,
  subscribe, arm_boundary, arm_each, arm_boundaries,
}
use rbpmn.Step.Advance.Enter.{settled, arm_alternative, arm_alternatives}
use rbpmn.Step.Claims.{timer_of, subscription_of, IsSound}
use rbpmn.Step.Claims.Stop.{freeze-IsSound}
use rbpmn.Step.Claims.Moves.{Keeps, keep}
use rbpmn.Step.Claims.Install.{
  Docked, takes_timer, takes_subscription, parked-Stoppable, new_timer, new_subscription, attach,
}

-- What arming a token leaves: the token still takes arms, or the instance is frozen.
pub data ArmKeeps (k : TokenId) {A : Type 0} : Arming A → Type 0 where
  keeps_armed : {x : A} {b : Advancer} → IsSound b → Docked b k → ArmKeeps k (armed x b)
  keeps_frozen : {b : Advancer} → IsSound b → ArmKeeps k (frozen b)
  keeps_broken : {b : Advancer} → IsSound b → ArmKeeps k (broken b)

pub on_resolved :
    {B : Type 0} (P : B → Type 0) (r : Resolved) {f : TimerDue → B} {g : ResolveFailure → B}
    → ((d : TimerDue) → P (f d))
    → ((x : ResolveFailure) → P (g x))
    → P (elim r [ resolved d ↦ f d | unresolved x ↦ g x ])
on_resolved P (resolved d) p q = p d
on_resolved P (unresolved x) p q = q x

pub on_key :
    {B : Type 0} (P : B → Type 0) (k : ArmKey) {x : B} {f : ArmFailure → B}
    {g : String → String → B}
    → P x
    → ((e : ArmFailure) → P (f e))
    → ((m t : String) → P (g m t))
    → P (elim k [ no_arm ↦ x | fails e ↦ f e | opens m t ↦ g m t ])
on_key P no_arm p q r = p
on_key P (fails e) p q r = q e
on_key P (opens m t) p q r = r m t

pub settled-Keeps : {A : Type 0} {k : TokenId} {r : Arming A} → ArmKeeps k r → Keeps (settled r)
settled-Keeps (keeps_armed s d) = keep s
settled-Keeps (keeps_frozen s) = keep s
settled-Keeps (keeps_broken s) = keep s

pub after_arming :
    {A : Type 0} {k : TokenId} {r : Arming A} {f : A → Advancer → Run}
    → ArmKeeps k r
    → ((x : A) (c : Advancer) → IsSound c → Docked c k → Keeps (f x c))
    → Keeps (elim r [ armed x c ↦ f x c | frozen c ↦ ok c | broken c ↦ fault panicked c ])
after_arming (keeps_armed s d) p = p _ _ s d
after_arming (keeps_frozen s) p = keep s
after_arming (keeps_broken s) p = keep s

next_boundary :
    {A B : Type 0} {k : TokenId} {r : Arming A} {f : Advancer → Arming B}
    → ArmKeeps k r
    → ((c : Advancer) → IsSound c → Docked c k → ArmKeeps k (f c))
    → ArmKeeps k (elim r [ armed _ c ↦ f c | frozen c ↦ frozen c | broken c ↦ broken c ])
next_boundary (keeps_armed s d) p = p _ s d
next_boundary (keeps_frozen s) p = keeps_frozen s
next_boundary (keeps_broken s) p = keeps_broken s

module _ (lib : Platform) (proc : ExecutableProcess) where
  pub record_timer-IsSound :
      (k : TokenId) (element : NodeIx) (due : TimerDue) (remaining continues : Option ℕ)
      (a : Advancer)
      → IsSound a
      → Docked a k
      → IsSound (record_timer lib proc k element due remaining continues a).1
  unfolding record_timer
  record_timer-IsSound k element due remaining continues a s d =
      attach k (timer_of a.state.next_timer) s d.parked d.unasked (new_timer a.state.next_timer _)
        (takes_timer a.state.next_timer d.at.wait d.takes)

  arm_timer-ArmKeeps :
      (k : TokenId) (element : NodeIx) (source : TimerSource) (a : Advancer)
      → IsSound a
      → Docked a k
      → ArmKeeps k (arm_timer lib proc k element source a)
  unfolding arm_timer record_timer
  arm_timer-ArmKeeps k element source a s d =
      on_resolved (ArmKeeps k) (resolve lib source a.state.variables)
        (λ due.
          keeps_armed (record_timer-IsSound k element due _ none a s d)
            (record { at = d.at; parked = d.parked; takes = d.takes; unasked = d.unasked }))
        (λ why.
          keeps_frozen (freeze-IsSound proc k element none none _ s (parked-Stoppable s d.parked)))

  pub subscribe-ArmKeeps :
      (k : TokenId) (element : NodeIx) (a : Advancer)
      → IsSound a
      → Docked a k
      → ArmKeeps k (subscribe lib proc k element a)
  unfolding subscribe
  subscribe-ArmKeeps k element a s d =
      on_key (ArmKeeps k) (arm_key lib proc a.state a.state.variables element none) (keeps_broken s)
        (λ e.
          keeps_frozen (freeze-IsSound proc k element none none _ s (parked-Stoppable s d.parked)))
        (λ m t.
          keeps_armed
            (attach k (subscription_of a.state.next_subscription) s d.parked d.unasked
              (new_subscription a.state.next_subscription _)
              (takes_subscription a.state.next_subscription d.at.wait d.takes))
            (record { at = d.at; parked = d.parked; takes = d.takes; unasked = d.unasked }))

  arm_boundary-ArmKeeps :
      (k : TokenId) (b : NodeIx) (kind : ExecKind) (a : Advancer)
      → IsSound a
      → Docked a k
      → ArmKeeps k (arm_boundary lib proc k b kind a)
  unfolding arm_boundary
  arm_boundary-ArmKeeps k b (timer_boundary due _) a s d = arm_timer-ArmKeeps k b due a s d
  arm_boundary-ArmKeeps k b (message_boundary _ _ _) a s d = subscribe-ArmKeeps k b a s d
  arm_boundary-ArmKeeps k b _ a s d = keeps_broken s

  arm_each-ArmKeeps :
      (bs : List NodeIx) (k : TokenId) (a : Advancer)
      → IsSound a
      → Docked a k
      → ArmKeeps k (arm_each lib proc bs k a)
  unfolding arm_each
  arm_each-ArmKeeps [] k a s d = keeps_armed s d
  arm_each-ArmKeeps (b ∷ bs) k a s d =
      next_boundary (arm_boundary-ArmKeeps k b (kind_of proc b) a s d) (arm_each-ArmKeeps bs k)

  pub arm_boundaries-ArmKeeps :
      (k : TokenId) (host : NodeIx) (a : Advancer)
      → IsSound a
      → Docked a k
      → ArmKeeps k (arm_boundaries lib proc k host a)
  unfolding arm_boundaries
  arm_boundaries-ArmKeeps k host a s d = arm_each-ArmKeeps (proc.boundaries host) k a s d

  data AltKeeps (k : TokenId) : Option (Arming ℕ) → Type 0 where
    no_alternative : AltKeeps k none
    alternative : {r : Arming ℕ} → ArmKeeps k r → AltKeeps k (some r)

  arm_alternative-AltKeeps :
      (k : TokenId) (target : NodeIx) (kind : ExecKind) (a : Advancer)
      → IsSound a
      → Docked a k
      → AltKeeps k (arm_alternative lib proc k target kind a)
  unfolding arm_alternative
  arm_alternative-AltKeeps k target (timer_catch due) a s d =
      alternative (arm_timer-ArmKeeps k target due a s d)
  arm_alternative-AltKeeps k target (message_catch _ _) a s d =
      alternative (subscribe-ArmKeeps k target a s d)
  arm_alternative-AltKeeps k target _ a s d = no_alternative

  next_alternative :
      {k : TokenId} {o : Option (Arming ℕ)} {f : Advancer → Run} (a : Advancer)
      → AltKeeps k o
      → IsSound a
      → ((c : Advancer) → IsSound c → Docked c k → Keeps (f c))
      → Keeps (elim o [
        | none ↦ fault bad_gateway_target a
        | some (armed _ c) ↦ f c
        | some (frozen c) ↦ ok c
        | some (broken c) ↦ fault panicked c
      ])
  next_alternative a no_alternative s p = keep s
  next_alternative a (alternative (keeps_armed t d)) s p = p _ t d
  next_alternative a (alternative (keeps_frozen t)) s p = keep t
  next_alternative a (alternative (keeps_broken t)) s p = keep t

  pub arm_alternatives-Keeps :
      (flows : List FlowIx) (k : TokenId) (a : Advancer)
      → IsSound a
      → Docked a k
      → Keeps (arm_alternatives lib proc flows k a)
  unfolding arm_alternatives
  arm_alternatives-Keeps [] k a s d = keep s
  arm_alternatives-Keeps (f ∷ fs) k a s d =
      let target = (proc.flow f).target in
      next_alternative a (arm_alternative-AltKeeps k target (kind_of proc target) a s d) s
        (arm_alternatives-Keeps fs k)
