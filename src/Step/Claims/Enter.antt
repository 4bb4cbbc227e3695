-- ===== src/Step/Claims/Enter.antt =====
-- The claims on tokens under `enter`, `run` and what settles after it (step.rs).
use mathlib.Core.Path.{subst}
use rbpmn.Common.{
  ℕ, zero, suc, ◌≡◌, refl, Bool, true, false, Option, none, List, [], ◌∷◌, Among, first, later, ltb,
  length, ◌==◌, is_nil, if◌then◌else◌,
}
use rbpmn.Common.Maps.{get}
use rbpmn.Process.{
  NodeIx, FlowIx, ExecutableProcess, ExecKind, Platform, start, end, terminate_end, task,
  business_rule, exclusive_gateway, parallel_gateway, error_boundary, timer_catch, message_catch,
  timer_boundary, message_boundary, event_based_gateway, sub_process, kind_of,
}
use rbpmn.State.{TokenId, decision, root, is_active}
use rbpmn.Step.Outcome.{Advancer, Move, Run}
use rbpmn.Step.Advance.{choose}
use rbpmn.Step.Advance.Enter.{
  enter_exclusive, enter_parallel, enter_terminate_end, enter_kind, enter, drain, request,
  ask_again, settle_decisions, settle_status, run,
}
use rbpmn.Step.Claims.{holdings, Sound, Pending, IsSound, HasHand}
use rbpmn.Step.Claims.Update.{put}
use rbpmn.Step.Claims.Queue.{popped, forget_asked}
use rbpmn.Step.Claims.Less.{on_option}
use rbpmn.Step.Claims.Reduce.{tear_down_scope-Reduces}
use rbpmn.Step.Claims.Stop.{terminate-IsSound}
use rbpmn.Step.Claims.Moves.{
  Keeps, keep, then-Keeps, on_test, leave-IsSound, leave_single-Keeps, complete_scope-Keeps,
  complete_scope_if_empty-Keeps, split-IsSound,
}
use rbpmn.Step.Claims.Join.{park-IsSound, enter_join-Keeps}
use rbpmn.Step.Claims.Nodes.{
  enter_task-Keeps, enter_timer_catch-Keeps, enter_message_catch-Keeps, enter_sub_process-Keeps,
  enter_gateway-Keeps,
}

on_queue :
    (P : Run → Type 0) (q : List Move) {x : Run} {f : Move → List Move → Run}
    → (q ≡ [] → P x)
    → ((m : Move) (r : List Move) → q ≡ m ∷ r → P (f m r))
    → P (elim q [ [] ↦ x | m ∷ r ↦ f m r ])
on_queue P [] p k = p refl
on_queue P (m ∷ r) p k = k m r refl

pub on_if : (P : Advancer → Type 0) (b : Bool) {x y : Advancer} → P x → P y → P (if b then x else y)
on_if P true p q = p
on_if P false p q = q

module _ (lib : Platform) (proc : ExecutableProcess) where
  enter_exclusive-Keeps :
      (default : Option FlowIx) (token : TokenId) (ix : NodeIx) (a : Advancer)
      → IsSound a
      → HasHand token a
      → Keeps (enter_exclusive lib proc default token ix a)
  unfolding enter_exclusive
  enter_exclusive-Keeps default token ix a s k =
      on_option Keeps (choose proc (proc.node ix).outgoing default a.state.variables) (λ _. keep s)
        (λ f _. keep (leave-IsSound proc token f _ s k))

  enter_parallel-Keeps :
      (token : TokenId) (ix : NodeIx) (via : Option FlowIx) (a : Advancer)
      → IsSound a
      → HasHand token a
      → Keeps (enter_parallel lib proc token ix via a)
  unfolding enter_parallel
  enter_parallel-Keeps token ix via a s k =
      on_test (ltb 1 (length (proc.node ix).incoming))
        (λ _. enter_join-Keeps proc token ix via a s k)
        (λ _. keep (split-IsSound proc (proc.node ix).outgoing _ s))

  enter_terminate_end-Keeps :
      (ix : NodeIx) (a : Advancer) → IsSound a → Keeps (enter_terminate_end lib proc ix a)
  unfolding enter_terminate_end
  enter_terminate_end-Keeps ix a s =
      on_test (a.scope == root) (λ _. keep (terminate-IsSound proc _ s))
        (λ _. complete_scope-Keeps proc _ _ ((tear_down_scope-Reduces proc _ _).sound none s))

  enter_kind-Keeps :
      (kind : ExecKind) (token : TokenId) (ix : NodeIx) (via : Option FlowIx) (a : Advancer)
      → IsSound a
      → HasHand token a
      → Keeps (enter_kind lib proc kind token ix via a)
  unfolding enter_kind
  enter_kind-Keeps start token ix via a s k = leave_single-Keeps proc token ix _ s k
  enter_kind-Keeps (business_rule d _) token ix via a s k =
      keep (park-IsSound token ix decision a s k)
  enter_kind-Keeps (task kind topic) token ix via a s k =
      enter_task-Keeps lib proc kind topic token ix a s k
  enter_kind-Keeps (timer_catch due) token ix via a s k =
      enter_timer_catch-Keeps lib proc due token ix a s k
  enter_kind-Keeps (message_catch _ _) token ix via a s k =
      enter_message_catch-Keeps lib proc token ix a s k
  enter_kind-Keeps event_based_gateway token ix via a s k =
      enter_gateway-Keeps lib proc token ix via a s k
  enter_kind-Keeps (sub_process child) token ix via a s k =
      enter_sub_process-Keeps lib proc child token ix a s k
  enter_kind-Keeps (timer_boundary _ _) token ix via a s k = keep s
  enter_kind-Keeps (message_boundary _ _ _) token ix via a s k = keep s
  enter_kind-Keeps (error_boundary _) token ix via a s k = keep s
  enter_kind-Keeps (exclusive_gateway d) token ix via a s k = enter_exclusive-Keeps d token ix a s k
  enter_kind-Keeps parallel_gateway token ix via a s k = enter_parallel-Keeps token ix via a s k
  enter_kind-Keeps end token ix via a s k = complete_scope_if_empty-Keeps proc _ _ s
  enter_kind-Keeps terminate_end token ix via a s k = enter_terminate_end-Keeps ix a s

  drain-Keeps : (fuel : ℕ) (a : Advancer) → IsSound a → Keeps (drain lib proc fuel a)
  unfolding drain enter
  drain-Keeps zero a s = keep s
  drain-Keeps (suc fuel) a s =
      on_queue Keeps a.queue (λ _. keep s)
        (λ m r e.
          let (t, k) = popped m r (
            subst (λ q. Sound none (holdings a.state) a.state.tokens a.state.next_token q a.reask) e
              s) in
          on_test (is_active a.state.status)
            (λ _.
              then-Keeps _ (enter_kind-Keeps (kind_of proc m.node) m.token m.node m.via _ t k)
                (drain-Keeps fuel))
            (λ _. keep t))

  AllPending : List TokenId → Advancer → Type 0
  AllPending ts a =
      (k : TokenId) → Among k ts → Pending (holdings a.state) a.state.next_token a.queue k

  Asking : List TokenId → Advancer → Type 0
  Asking ts a = IsSound a × AllPending ts a

  request-Asking :
      (kind : ExecKind) (ix : NodeIx) (ts : List TokenId) (a : Advancer)
      → Asking ts a
      → Asking ts (request lib proc kind ix a)
  unfolding request Asking AllPending
  request-Asking (business_rule d _) ix ts a h = h
  request-Asking _ ix ts a h = h

  ask_again-IsSound :
      (ts : List TokenId) (a : Advancer) → Asking ts a → IsSound (ask_again lib proc ts a)
  unfolding ask_again Asking AllPending
  ask_again-IsSound [] a h = h.0
  ask_again-IsSound (t ∷ ts) a h = ask_again-IsSound ts _ (
      on_option (Asking ts) (get t a.state.tokens) (λ _. (h.0, λ k i. h.1 k (later i)))
        (λ u e.
          let p = h.1 t first in
          request-Asking (kind_of proc u.node) u.node ts _ (
            put t (record u { wait = decision }) h.0 (λ j y. absurd y)
                (λ c n. absurd (p.unnamed c n)) p.unmoved p.below,
            λ k i. h.1 k (later i),
          )))

  settle_decisions-IsSound : (a : Advancer) → IsSound a → IsSound (settle_decisions lib proc a)
  unfolding settle_decisions Asking AllPending
  settle_decisions-IsSound a s =
      on_if IsSound (is_active a.state.status)
        (ask_again-IsSound a.reask (record a { reask = [] }) (forget_asked s, s.asked)) s

  settle_status-IsSound : (a : Advancer) → IsSound a → IsSound (settle_status lib proc a)
  unfolding settle_status
  settle_status-IsSound a s =
      on_if IsSound (is_active a.state.status) (on_if IsSound (is_nil a.state.tokens) s s) s

  pub run-Keeps : (fuel : ℕ) (a : Advancer) → IsSound a → Keeps (run lib proc fuel a)
  unfolding run
  run-Keeps fuel a s =
      then-Keeps _ (drain-Keeps fuel a s)
        (λ b t. keep (settle_status-IsSound _ (settle_decisions-IsSound b t)))
