-- ===== src/Step/Quiescence/Results.antt =====
-- Every run that a command hands back has a token if it is active.
use rbpmn.Common.{
  ℕ, ◌≡◌, ◌≢◌, Bool, true, false, Option, none, some, String, List, [], ◌==◌, if◌then◌else◌,
}
use rbpmn.Common.Maps.{get, insert}
use rbpmn.Json.{Value}
use rbpmn.Process.{NodeIx, ExecutableProcess, Platform, node_id}
use rbpmn.Event.{work_item_failed}
use rbpmn.State.{
  InstanceState, Token, TokenId, WaitKind, active, work_item, timer, message, event_gateway,
  WorkItemState, TimerState, SubscriptionState, root,
}
use rbpmn.Step.Outcome.{Advancer, Run, ok, fault, exhausted, ◌>>=◌, Disposition, push_event, new}
use rbpmn.Step.Withdraw.{terminate, freeze, scope_or}
use rbpmn.Step.Boundary.{catcher}
use rbpmn.Step.Advance.Enter.{drain, settle_decisions, settle_status, run}
use rbpmn.Step.Commands.Repair.{is_abandon_instance, carry_out, resume_halted}
use rbpmn.Step.Commands.{
  complete_item, fail_item, answer_decision, fire_boundary, fire_on, fire, deliver_boundary,
  deliver_on, deliver,
}
use rbpmn.Step.Quiescence.{settle_status-tokens}

-- A result that is active has a token.
pub data Occupied : Run → Type 0 where
  occupied_ok : {a : Advancer} → (a.state.status ≡ active → a.state.tokens ≢ []) → Occupied (ok a)
  occupied_fault : {e : _} {a : Advancer} → Occupied (fault e a)
  occupied_exhausted : {a : Advancer} → Occupied (exhausted a)

if-Occupied : (b : Bool) {x y : Run} → Occupied x → Occupied y → Occupied (if b then x else y)
if-Occupied true p q = p
if-Occupied false p q = q

elim-Occupied :
    {A : Type 0} (o : Option A) {x : Run} {f : A → Run}
    → Occupied x
    → ((v : A) → Occupied (f v))
    → Occupied (elim o [ none ↦ x | some v ↦ f v ])
elim-Occupied none p q = p
elim-Occupied (some v) p q = q v

option_pair :
    (o : Option (TokenId × NodeIx)) {x : Run} {f : TokenId → NodeIx → Run}
    → ((t : TokenId) (b : NodeIx) → Occupied (f t b))
    → Occupied x
    → Occupied (elim o [ some (t, b) ↦ f t b | none ↦ x ])
option_pair none p q = q
option_pair (some (t, b)) p q = p t b

module _ (lib : Platform) (proc : ExecutableProcess) (fuel : ℕ) where
  pub run-Occupied : (a : Advancer) → Occupied (run lib proc fuel a)
  unfolding run
  run-Occupied a =
      elim (drain lib proc fuel a)
        as (λ r. Occupied (r >>= λ b. ok (settle_status lib proc (settle_decisions lib proc b)))) [
          | ok b ↦ occupied_ok (settle_status-tokens lib proc _)
          | fault e b ↦ occupied_fault
          | exhausted b ↦ occupied_exhausted
        ]

  pub then-Occupied :
      (r : Run) (f : Advancer → Advancer) → Occupied (r >>= λ b. run lib proc fuel (f b))
  then-Occupied (ok a) f = run-Occupied (f a)
  then-Occupied (fault e a) f = occupied_fault
  then-Occupied (exhausted a) f = occupied_exhausted

  pub freeze-Occupied :
      (t : TokenId) (ix : NodeIx) (c d : Option String) (a : Advancer)
      → Occupied (ok (freeze proc t ix c d a))
  unfolding freeze
  freeze-Occupied t ix c d a = occupied_ok (λ h. cc)

  pub terminate-Occupied : (a : Advancer) → Occupied (ok (terminate proc a))
  unfolding terminate
  terminate-Occupied a = occupied_ok (λ h. cc)

  pub complete_item-Occupied :
      (id : ℕ) (item : WorkItemState) (patch : Value) (s : InstanceState)
      → Occupied (complete_item lib proc fuel id item patch s)
  unfolding complete_item
  complete_item-Occupied id item patch s =
      elim-Occupied (get item.token s.tokens) occupied_fault (λ t. then-Occupied _ (λ b. b))

  pub answer_decision-Occupied :
      (token : TokenId) (t : Token) (path : List String) (answer : Option Value)
      (reason : Option String) (s : InstanceState)
      → Occupied (answer_decision lib proc fuel token t path answer reason s)
  unfolding answer_decision
  answer_decision-Occupied token t path none reason s = run-Occupied _
  answer_decision-Occupied token t path (some v) reason s = then-Occupied _ (λ b. b)

  pub fail_item-Occupied :
      (id : ℕ) (item : WorkItemState) (c : Option String) (s : InstanceState)
      → Occupied (fail_item lib proc fuel id item c s)
  unfolding fail_item
  fail_item-Occupied id item c s =
      let a = push_event (work_item_failed id (node_id proc item.element) c) (
        new (record s { work_items = insert id (record item { is_open = false }) s.work_items })) in
      option_pair
        (catcher proc a.state item.element item.token (scope_or root (get item.token s.tokens)) c)
        (λ x y. then-Occupied _ (λ b. b)) (freeze-Occupied item.token item.element c none a)

  pub fire_boundary-Occupied :
      (id : ℕ) (t : TimerState) (host : Token) (a : Advancer)
      → Occupied (fire_boundary lib proc fuel id t host a)
  unfolding fire_boundary
  fire_boundary-Occupied id t host a = then-Occupied _ (λ b. b)

  pub fire_on-Occupied :
      (w : WaitKind) (id : ℕ) (t : TimerState) (host : Token) (a : Advancer)
      → Occupied (fire_on lib proc fuel w id t host a)
  unfolding fire_on
  fire_on-Occupied (timer tid) id t host a =
      if-Occupied (tid == id) (then-Occupied _ (λ b. b)) occupied_fault
  fire_on-Occupied (work_item _) id t host a = fire_boundary-Occupied id t host a
  fire_on-Occupied (message _) id t host a = fire_boundary-Occupied id t host a
  fire_on-Occupied (WaitKind.scope _) id t host a = fire_boundary-Occupied id t host a
  fire_on-Occupied event_gateway id t host a = then-Occupied _ (λ b. b)
  fire_on-Occupied _ id t host a = occupied_fault

  pub fire-Occupied :
      (id : ℕ) (t : TimerState) (s : InstanceState) → Occupied (fire lib proc fuel id t s)
  unfolding fire
  fire-Occupied id t s =
      elim-Occupied (get t.token s.tokens) occupied_fault
        (λ host. fire_on-Occupied host.wait id t host _)

  pub deliver_boundary-Occupied :
      (sub : SubscriptionState) (host : Token) (a : Advancer)
      → Occupied (deliver_boundary lib proc fuel sub host a)
  unfolding deliver_boundary
  deliver_boundary-Occupied sub host a = then-Occupied _ (λ b. b)

  pub deliver_on-Occupied :
      (w : WaitKind) (id : ℕ) (sub : SubscriptionState) (host : Token) (a : Advancer)
      → Occupied (deliver_on lib proc fuel w id sub host a)
  unfolding deliver_on
  deliver_on-Occupied (message sid) id sub host a =
      if-Occupied (sid == id) (then-Occupied _ (λ b. b)) (deliver_boundary-Occupied sub host a)
  deliver_on-Occupied (work_item _) id sub host a = deliver_boundary-Occupied sub host a
  deliver_on-Occupied (WaitKind.scope _) id sub host a = deliver_boundary-Occupied sub host a
  deliver_on-Occupied event_gateway id sub host a = then-Occupied _ (λ b. b)
  deliver_on-Occupied _ id sub host a = occupied_fault

  pub deliver-Occupied :
      (id : ℕ) (sub : SubscriptionState) (patch : Value) (s : InstanceState)
      → Occupied (deliver lib proc fuel id sub patch s)
  unfolding deliver
  deliver-Occupied id sub patch s =
      elim-Occupied (get sub.token s.tokens) occupied_fault
        (λ host. deliver_on-Occupied host.wait id sub host _)

  pub carry_out-Occupied :
      (n : ℕ) (d : Disposition) (reason : String) (cause : TokenId) (t : Token) (s : InstanceState)
      → Occupied (carry_out proc lib fuel n d reason cause t s)
  unfolding carry_out
  carry_out-Occupied n d reason cause t s =
      if-Occupied (is_abandon_instance d) (terminate-Occupied _)
        (then-Occupied _ (resume_halted proc))
