-- ===== src/Step/Claims/Dangling/Inner.antt =====
-- The faults of `enter`, `run` and what they call (step.rs).
use rbpmn.Common.{
  ℕ, zero, suc, ◌≡◌, refl, Bool, true, false, not, ◌||◌, Option, none, some, is_some, List, [], ◌∷◌,
  ltb, length, ◌==◌, if◌then◌else◌,
}
use rbpmn.Common.Maps.{get}
use rbpmn.Process.{
  NodeIx, FlowIx, ExecutableProcess, ExecKind, Platform, start, end, terminate_end, task,
  business_rule, exclusive_gateway, parallel_gateway, error_boundary, timer_catch, message_catch,
  timer_boundary, message_boundary, event_based_gateway, sub_process, kind_of,
}
use rbpmn.State.{TokenId, ScopeId, message, root, is_active}
use rbpmn.Step.Outcome.{
  Advancer, Move, Run, ok, fault, exhausted, ◌>>=◌, Fault, lost_token, lost_host, unrelated_wait,
  not_a_host, panicked, bad_gateway_target, started,
}
use rbpmn.Step.Arm.{Arming, armed, frozen, broken, subscribe, arm_boundaries}
use rbpmn.Step.Advance.{
  park, leave_by, leave_single, complete_scope, complete_scope_if_empty, scope_is_empty, join_full,
  enter_join, arrived, choose,
}
use rbpmn.Step.Advance.Enter.{
  settled, enter_task, enter_timer_catch, enter_message_catch, arm_alternatives, enter_sub_process,
  enter_exclusive, enter_parallel, enter_terminate_end, enter_kind, enter, drain, run,
}
use rbpmn.Step.Claims.Less.{on_option}

-- The faults that name a token which is gone, or which does not wait for what happened.
abbrev pub is_dangling : Fault → Bool
is_dangling lost_token = true
is_dangling lost_host = true
is_dangling unrelated_wait = true
is_dangling not_a_host = true
is_dangling _ = false

pub data Sure : Run → Type 0 where
  sure_ok : {a : Advancer} → Sure (ok a)
  sure_fault : {e : Fault} {a : Advancer} → is_dangling e ≡ false → Sure (fault e a)
  sure_exhausted : {a : Advancer} → Sure (exhausted a)

pub if-Sure : (b : Bool) {x y : Run} → Sure x → Sure y → Sure (if b then x else y)
if-Sure true p q = p
if-Sure false p q = q

pub then-Sure :
    {r : Run} {f : Advancer → Run} → Sure r → ((a : Advancer) → Sure (f a)) → Sure (r >>= f)
then-Sure sure_ok k = k _
then-Sure (sure_fault e) k = sure_fault e
then-Sure sure_exhausted k = sure_exhausted

pub Sure-arming :
    {A : Type 0} (r : Arming A) {f : A → Advancer → Run}
    → ((x : A) (c : Advancer) → Sure (f x c))
    → Sure (elim r [ armed x c ↦ f x c | frozen c ↦ ok c | broken c ↦ fault panicked c ])
Sure-arming (armed x c) k = k x c
Sure-arming (frozen c) k = sure_ok
Sure-arming (broken c) k = sure_fault refl

Sure-settled : {A : Type 0} (r : Arming A) → Sure (settled r)
Sure-settled (armed x c) = sure_ok
Sure-settled (frozen c) = sure_ok
Sure-settled (broken c) = sure_fault refl

Sure-alternative :
    (o : Option (Arming ℕ)) {f : Advancer → Run} (a : Advancer)
    → ((c : Advancer) → Sure (f c))
    → Sure (elim o [
      | none ↦ fault bad_gateway_target a
      | some (armed _ c) ↦ f c
      | some (frozen c) ↦ ok c
      | some (broken c) ↦ fault panicked c
    ])
Sure-alternative none a k = sure_fault refl
Sure-alternative (some (armed x c)) a k = k c
Sure-alternative (some (frozen c)) a k = sure_ok
Sure-alternative (some (broken c)) a k = sure_fault refl

Sure-queue :
    (q : List Move) {x : Run} {f : Move → List Move → Run}
    → Sure x
    → ((m : Move) (r : List Move) → Sure (f m r))
    → Sure (elim q [ [] ↦ x | m ∷ r ↦ f m r ])
Sure-queue [] p k = p
Sure-queue (m ∷ r) p k = k m r

module _ (proc : ExecutableProcess) where
  leave_by-Sure :
      (flows : List FlowIx) (token : TokenId) (a : Advancer) → Sure (leave_by proc flows token a)
  unfolding leave_by
  leave_by-Sure [] token a = sure_fault refl
  leave_by-Sure (f ∷ []) token a = sure_ok
  leave_by-Sure (f ∷ g ∷ fs) token a = sure_fault refl

  pub leave_single-Sure :
      (token : TokenId) (ix : NodeIx) (a : Advancer) → Sure (leave_single proc token ix a)
  unfolding leave_single
  leave_single-Sure token ix a = leave_by-Sure (proc.node ix).outgoing token a

  complete_scope-Sure : (s : ScopeId) (a : Advancer) → Sure (complete_scope proc s a)
  unfolding complete_scope
  complete_scope-Sure s a =
      on_option Sure (get s a.state.scopes) (λ _. sure_fault refl)
        (λ c _. if-Sure _ (sure_fault refl) (leave_single-Sure _ _ _))

  complete_scope_if_empty-Sure :
      (s : ScopeId) (a : Advancer) → Sure (complete_scope_if_empty proc s a)
  unfolding complete_scope_if_empty
  complete_scope_if_empty-Sure s a =
      if-Sure (s == root || not (scope_is_empty s a)) sure_ok (complete_scope-Sure s a)

  join_full-Sure :
      (o : Option (List TokenId)) (ix : NodeIx) (a : Advancer) → Sure (join_full proc o ix a)
  unfolding join_full
  join_full-Sure none ix a = sure_ok
  join_full-Sure (some ts) ix a = leave_single-Sure _ ix _

  enter_join-Sure :
      (token : TokenId) (ix : NodeIx) (via : Option FlowIx) (a : Advancer)
      → Sure (enter_join proc token ix via a)
  unfolding enter_join
  enter_join-Sure token ix none a = sure_fault refl
  enter_join-Sure token ix (some f) a =
      if-Sure (is_some (arrived ix a.scope a.state.tokens f)) (sure_fault refl)
        (join_full-Sure _ ix _)

  module _ (lib : Platform) where
    arm_alternatives-Sure :
        (flows : List FlowIx) (token : TokenId) (a : Advancer)
        → Sure (arm_alternatives lib proc flows token a)
    unfolding arm_alternatives
    arm_alternatives-Sure [] token a = sure_ok
    arm_alternatives-Sure (f ∷ fs) token a =
        Sure-alternative _ a (λ c. arm_alternatives-Sure fs token c)

    enter_exclusive-Sure :
        (default : Option FlowIx) (token : TokenId) (ix : NodeIx) (a : Advancer)
        → Sure (enter_exclusive lib proc default token ix a)
    unfolding enter_exclusive
    enter_exclusive-Sure default token ix a =
        on_option Sure (choose proc (proc.node ix).outgoing default a.state.variables)
          (λ _. sure_fault refl) (λ f _. sure_ok)

    enter_message_catch-Sure :
        (token : TokenId) (ix : NodeIx) (a : Advancer)
        → Sure (enter_message_catch lib proc token ix a)
    unfolding enter_message_catch
    enter_message_catch-Sure token ix a =
        Sure-arming (subscribe lib proc token ix (started proc ix a))
          (λ id b. Sure-settled (arm_boundaries lib proc token ix (park token ix (message id) b)))

    enter_kind-Sure :
        (kind : ExecKind) (token : TokenId) (ix : NodeIx) (via : Option FlowIx) (a : Advancer)
        → Sure (enter_kind lib proc kind token ix via a)
    unfolding enter_kind enter_task enter_timer_catch enter_sub_process enter_parallel
        enter_terminate_end
    enter_kind-Sure start token ix via a = leave_single-Sure token ix _
    enter_kind-Sure (business_rule d _) token ix via a = sure_ok
    enter_kind-Sure (task kind topic) token ix via a = Sure-settled _
    enter_kind-Sure (timer_catch due) token ix via a = Sure-arming _ (λ id b. sure_ok)
    enter_kind-Sure (message_catch _ _) token ix via a = enter_message_catch-Sure token ix a
    enter_kind-Sure event_based_gateway token ix via a =
        arm_alternatives-Sure (proc.node ix).outgoing token _
    enter_kind-Sure (sub_process child) token ix via a = Sure-arming _ (λ _ c. sure_ok)
    enter_kind-Sure (timer_boundary _ _) token ix via a = sure_fault refl
    enter_kind-Sure (message_boundary _ _ _) token ix via a = sure_fault refl
    enter_kind-Sure (error_boundary _) token ix via a = sure_fault refl
    enter_kind-Sure (exclusive_gateway d) token ix via a = enter_exclusive-Sure d token ix a
    enter_kind-Sure parallel_gateway token ix via a =
        if-Sure (ltb 1 (length (proc.node ix).incoming)) (enter_join-Sure token ix via a) sure_ok
    enter_kind-Sure end token ix via a = complete_scope_if_empty-Sure _ _
    enter_kind-Sure terminate_end token ix via a =
        if-Sure (a.scope == root) sure_ok (complete_scope-Sure _ _)

    drain-Sure : (fuel : ℕ) (a : Advancer) → Sure (drain lib proc fuel a)
    unfolding drain enter
    drain-Sure zero a = sure_exhausted
    drain-Sure (suc fuel) a = Sure-queue a.queue sure_ok (λ m r.
        if-Sure (is_active a.state.status)
          (then-Sure (enter_kind-Sure (kind_of proc m.node) m.token m.node m.via _)
            (drain-Sure fuel))
          sure_ok)

    pub run-Sure : (fuel : ℕ) (a : Advancer) → Sure (run lib proc fuel a)
    unfolding run
    run-Sure fuel a = then-Sure (drain-Sure fuel a) (λ b. sure_ok)
