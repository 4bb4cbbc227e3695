-- ===== src/Step/Advance/Enter/Arms.antt =====
-- Arming leaves an instance active or frozen with an empty queue, and so do the nodes that arm.
use mathlib.Core.Option.{some-injective}
use mathlib.Core.Path.{subst}
use rbpmn.Common.{
  ℕ, ◌≡◌, refl, Bool, true, false, Option, none, some, List, [], ◌∷◌, String, if◌then◌else◌,
}
use rbpmn.Process.{
  NodeIx, FlowIx, ExecutableProcess, ExecKind, WorkKind, ScopeIx, TimerSource, Platform, Resolved,
  resolved, unresolved, resolve, ResolveFailure, TimerDue, timer_catch, message_catch,
  timer_boundary, message_boundary, kind_of,
}
use rbpmn.State.{active, TokenId}
use rbpmn.Step.Outcome.{Advancer, Run, ok, fault, exhausted, ArmFailure, panicked}
use rbpmn.Step.Withdraw.{freeze, terminate}
use rbpmn.Step.Arm.{
  Arming, armed, frozen, broken, ArmKey, opens, fails, no_arm, arm_key, arm_timer, record_timer,
  subscribe, arm_boundary, arm_each, arm_boundaries,
}
use rbpmn.Step.Advance.Enter.{
  settled, enter_task, enter_timer_catch, enter_message_catch, arm_alternative, arm_alternatives,
  enter_sub_process,
}

-- The instance is active, or nothing is queued.
pub data Quiet (a : Advancer) : Type 0 where
  live : a.state.status ≡ active → Quiet a
  drained : a.queue ≡ [] → Quiet a

-- What a method hands back is quiet.
pub data Ends : Run → Type 0 where
  ends_ok : {a : Advancer} → Quiet a → Ends (ok a)
  ends_fault : {e : _} {a : Advancer} → Ends (fault e a)
  ends_exhausted : {a : Advancer} → Ends (exhausted a)

pub data Arms {A : Type 0} : Arming A → Type 0 where
  arms_armed : {x : A} {a : Advancer} → a.state.status ≡ active → Arms (armed x a)
  arms_frozen : {a : Advancer} → a.queue ≡ [] → Arms (frozen a)
  arms_broken : {a : Advancer} → Arms (broken a)

pub settled-Ends : {A : Type 0} {r : Arming A} → Arms r → Ends (settled r)
settled-Ends (arms_armed h) = ends_ok (live h)
settled-Ends (arms_frozen h) = ends_ok (drained h)
settled-Ends arms_broken = ends_fault

-- The next boundary, after one that was armed.
pub next-Arms :
    {A B : Type 0} {r : Arming A} {f : Advancer → Arming B}
    → Arms r
    → ((c : Advancer) → c.state.status ≡ active → Arms (f c))
    → Arms (elim r [ armed _ c ↦ f c | frozen c ↦ frozen c | broken c ↦ broken c ])
next-Arms (arms_armed h) k = k _ h
next-Arms (arms_frozen h) k = arms_frozen h
next-Arms arms_broken k = arms_broken

pub after-Ends :
    {A : Type 0} {r : Arming A} {f : A → Advancer → Run}
    → Arms r
    → ((x : A) (c : Advancer) → c.state.status ≡ active → Ends (f x c))
    → Ends (elim r [ armed x c ↦ f x c | frozen c ↦ ok c | broken c ↦ fault panicked c ])
after-Ends (arms_armed h) k = k _ _ h
after-Ends (arms_frozen h) k = ends_ok (drained h)
after-Ends arms_broken k = ends_fault

pub resolved-Arms :
    {A : Type 0} (r : Resolved) {f : TimerDue → Arming A} {g : ResolveFailure → Arming A}
    → ((d : TimerDue) → Arms (f d))
    → ((x : ResolveFailure) → Arms (g x))
    → Arms (elim r [ resolved d ↦ f d | unresolved x ↦ g x ])
resolved-Arms (resolved d) p q = p d
resolved-Arms (unresolved x) p q = q x

pub key-Arms :
    {A : Type 0} (k : ArmKey) {x : Arming A} {f : ArmFailure → Arming A}
    {g : String → String → Arming A}
    → Arms x
    → ((e : ArmFailure) → Arms (f e))
    → ((m t : String) → Arms (g m t))
    → Arms (elim k [ no_arm ↦ x | fails e ↦ f e | opens m t ↦ g m t ])
key-Arms no_arm p q r = p
key-Arms (fails e) p q r = q e
key-Arms (opens m t) p q r = r m t

-- One alternative of an event-based gateway, then the others.
pub alternative-Ends :
    (o : Option (Arming ℕ)) {x : Run} {f : Advancer → Run}
    → Ends x
    → ((r : Arming ℕ) → o ≡ some r → Arms r)
    → ((c : Advancer) → c.state.status ≡ active → Ends (f c))
    → Ends (elim o [
      | none ↦ x
      | some (armed _ c) ↦ f c
      | some (frozen c) ↦ ok c
      | some (broken c) ↦ fault panicked c
    ])
alternative-Ends none p q k = p
alternative-Ends (some (armed i c)) p q k = elim (q (armed i c) refl) [ arms_armed h ↦ k c h ]
alternative-Ends (some (frozen c)) p q k = elim (q (frozen c) refl) [
  | arms_frozen h ↦ ends_ok (drained h)
]
alternative-Ends (some (broken c)) p q k = ends_fault

pub option-Ends :
    {A : Type 0} (o : Option A) {x : Run} {f : A → Run}
    → Ends x
    → ((v : A) → Ends (f v))
    → Ends (elim o [ none ↦ x | some v ↦ f v ])
option-Ends none p q = p
option-Ends (some v) p q = q v

pub if-Ends : (b : Bool) {x y : Run} → Ends x → Ends y → Ends (if b then x else y)
if-Ends true p q = p
if-Ends false p q = q

module _ (lib : Platform) (proc : ExecutableProcess) where
  pub freeze-queue :
      (token : TokenId) (ix : NodeIx) (c d : Option String) (a : Advancer)
      → (freeze proc token ix c d a).queue ≡ []
  unfolding freeze
  freeze-queue token ix c d a = refl

  pub terminate-queue : (a : Advancer) → (terminate proc a).queue ≡ []
  unfolding terminate
  terminate-queue a = refl

  pub arm_timer-Arms :
      (token : TokenId) (ix : NodeIx) (due : TimerSource) (a : Advancer)
      → a.state.status ≡ active
      → Arms (arm_timer lib proc token ix due a)
  unfolding arm_timer record_timer
  arm_timer-Arms token ix due a h =
      resolved-Arms (resolve lib due a.state.variables) (λ d. arms_armed h)
        (λ r. arms_frozen (freeze-queue _ _ _ _ _))

  pub subscribe-Arms :
      (token : TokenId) (ix : NodeIx) (a : Advancer)
      → a.state.status ≡ active
      → Arms (subscribe lib proc token ix a)
  unfolding subscribe
  subscribe-Arms token ix a h =
      key-Arms (arm_key lib proc a.state a.state.variables ix none) arms_broken
        (λ f. arms_frozen (freeze-queue _ _ _ _ _)) (λ m k. arms_armed h)

  pub arm_boundary-Arms :
      (k : ExecKind) (token : TokenId) (b : NodeIx) (a : Advancer)
      → a.state.status ≡ active
      → Arms (arm_boundary lib proc token b k a)
  unfolding arm_boundary
  arm_boundary-Arms (timer_boundary due _) token b a h = arm_timer-Arms token b due a h
  arm_boundary-Arms (message_boundary _ _ _) token b a h = subscribe-Arms token b a h
  arm_boundary-Arms _ token b a h = arms_broken

  pub arm_each-Arms :
      (bs : List NodeIx) (token : TokenId) (a : Advancer)
      → a.state.status ≡ active
      → Arms (arm_each lib proc bs token a)
  unfolding arm_each
  arm_each-Arms [] token a h = arms_armed h
  arm_each-Arms (b ∷ bs) token a h =
      next-Arms (arm_boundary-Arms (kind_of proc b) token b a h) (arm_each-Arms bs token)

  pub enter_task-Ends :
      (k : WorkKind) (topic : String) (token : TokenId) (ix : NodeIx) (a : Advancer)
      → a.state.status ≡ active
      → Ends (enter_task lib proc k topic token ix a)
  unfolding enter_task arm_boundaries
  enter_task-Ends k topic token ix a h = settled-Ends (arm_each-Arms (proc.boundaries ix) token _ h)

  pub enter_timer_catch-Ends :
      (due : TimerSource) (token : TokenId) (ix : NodeIx) (a : Advancer)
      → a.state.status ≡ active
      → Ends (enter_timer_catch lib proc due token ix a)
  unfolding enter_timer_catch
  enter_timer_catch-Ends due token ix a h =
      after-Ends (arm_timer-Arms token ix due _ h) (λ x c k. ends_ok (live k))

  pub enter_message_catch-Ends :
      (token : TokenId) (ix : NodeIx) (a : Advancer)
      → a.state.status ≡ active
      → Ends (enter_message_catch lib proc token ix a)
  unfolding enter_message_catch arm_boundaries
  enter_message_catch-Ends token ix a h =
      after-Ends (subscribe-Arms token ix _ h)
        (λ x c k. settled-Ends (arm_each-Arms (proc.boundaries ix) token _ k))

  pub arm_alternative-Arms :
      (k : ExecKind) (token : TokenId) (target : NodeIx) (a : Advancer)
      → a.state.status ≡ active
      → (r : Arming ℕ) → arm_alternative lib proc token target k a ≡ some r
      → Arms r
  unfolding arm_alternative
  arm_alternative-Arms (timer_catch due) token target a h r e =
      subst Arms (some-injective _ _ e) (arm_timer-Arms token target due a h)
  arm_alternative-Arms (message_catch _ _) token target a h r e =
      subst Arms (some-injective _ _ e) (subscribe-Arms token target a h)
  arm_alternative-Arms _ token target a h r e = cc

  pub arm_alternatives-Ends :
      (flows : List FlowIx) (token : TokenId) (a : Advancer)
      → a.state.status ≡ active
      → Ends (arm_alternatives lib proc flows token a)
  unfolding arm_alternatives
  arm_alternatives-Ends [] token a h = ends_ok (live h)
  arm_alternatives-Ends (f ∷ fs) token a h =
      let target = (proc.flow f).target in
      alternative-Ends (arm_alternative lib proc token target (kind_of proc target) a) ends_fault
        (arm_alternative-Arms (kind_of proc target) token target a h)
        (arm_alternatives-Ends fs token)

  pub enter_sub_process-Ends :
      (child : ScopeIx) (token : TokenId) (ix : NodeIx) (a : Advancer)
      → a.state.status ≡ active
      → Ends (enter_sub_process lib proc child token ix a)
  unfolding enter_sub_process arm_boundaries
  enter_sub_process-Ends child token ix a h =
      after-Ends (arm_each-Arms (proc.boundaries ix) token _ h) (λ x c k. ends_ok (live k))
