-- ===== src/Step/Claims/Items.antt =====
-- The claims on tokens under the commands on work items and decisions (step.rs).
use mathlib.Core.Path.{subst}
use rbpmn.Common.{
  ℕ, ◌≡◌, refl, Bool, true, false, Option, none, some, String, List, [], ◌∷◌, ◌++◌, if◌then◌else◌,
  nowhere,
}
use rbpmn.Common.Maps.{get}
use rbpmn.Json.{Value, is_empty}
use rbpmn.Json.Paths.{assign}
use rbpmn.Json.Merge.{merge_patch}
use rbpmn.Event.{Event, variables_patched, work_item_failed, decision_evaluated}
use rbpmn.Process.{NodeIx, ExecutableProcess, Platform, node_id}
use rbpmn.State.{InstanceState, TokenId, WorkItemId, Token, decision, WorkItemState, root}
use rbpmn.Step.Outcome.{Advancer, ◌>>=◌, new, push_event, in_scope, completed}
use rbpmn.Step.Withdraw.{withdraw_arms, scope_or}
use rbpmn.Step.Advance.{unpark, leave_single}
use rbpmn.Step.Advance.Enter.{run}
use rbpmn.Step.Boundary.{catcher}
use rbpmn.Step.Commands.Repair.{apply_patch}
use rbpmn.Step.Commands.{complete_item, answer_decision, fail_item, reason_of}
use rbpmn.Step.Claims.{Claim, item_of, host_of, holdings, Names, names_item, Fits, IsTended}
use rbpmn.Step.Claims.Less.{on_option}
use rbpmn.Step.Claims.Reduce.{withdraw_arms-Reduces}
use rbpmn.Step.Claims.Stop.{freeze-IsSound}
use rbpmn.Step.Claims.Moves.{Keeps, keep, then-Keeps, leave_single-Keeps}
use rbpmn.Step.Claims.Install.{parked-Stoppable}
use rbpmn.Step.Claims.Enter.{run-Keeps}
use rbpmn.Step.Claims.Release.{none_at_decision, Fits-of, item_parked, release}
use rbpmn.Step.Claims.Boundary.{disarmed, interrupt_to_boundary-Keeps}
use rbpmn.Step.Claims.Catcher.{catcher-no_item}
use rbpmn.Step.Claims.Closing.{closed_state, closed_sound, closed_no_item, closed_no_host}

-- What holds whatever the variables and the events are, holds after a patch.
pub patched :
    (P : Advancer → Type 0) (patch : Value) (a : Advancer)
    → ((v : Value) (es : List Event)
        → P (record a { state = record (a.state) { variables = v }; events = es }))
    → P (apply_patch patch a)
unfolding apply_patch
patched P patch a h = choice (is_empty patch)
  where
    choice :
        (b : Bool)
        → P (
            if b
            then a
            else push_event (variables_patched patch) (record a {
              state = record (a.state) { variables = merge_patch a.state.variables patch };
            }))
    choice true = h a.state.variables a.events
    choice false =
        h (merge_patch a.state.variables patch) (a.events ++ variables_patched patch ∷ [])

-- Both cases of a walk that may end at a boundary.
pub on_catch :
    {B : Type 0} (P : B → Type 0) (o : Option (TokenId × NodeIx)) {f : TokenId → NodeIx → B} {x : B}
    → ((t : TokenId) (b : NodeIx) → o ≡ some (t, b) → P (f t b))
    → P x
    → P (elim o [ some (t, b) ↦ f t b | none ↦ x ])
on_catch P none p q = q
on_catch P (some (t, b)) p q = p t b refl

module _ (lib : Platform) (proc : ExecutableProcess) (fuel : ℕ) where
  pub complete_item-Keeps :
      (id : WorkItemId) (item : WorkItemState) (patch : Value) (s : InstanceState)
      → IsTended s
      → get id s.work_items ≡ some item
      → item.is_open ≡ true
      → Keeps (complete_item lib proc fuel id item patch s)
  unfolding complete_item
  complete_item-Keeps id item patch s h g o =
      on_option Keeps (get item.token s.tokens) (λ _. keep (closed_sound id item s h))
        (λ t e.
          patched
            (λ b. Keeps (
              leave_single proc item.token item.element
                (completed proc item.element (withdraw_arms proc (some item.token) b))
              >>= run lib proc fuel))
            patch _
            (λ v es.
              let a : Advancer = record {
                state = record (closed_state id item s) { variables = v };
                events = es;
                queue = [];
                scope = t.scope;
                reask = [];
              } in
              let b = withdraw_arms proc (some item.token) (unpark item.token a) in
              let (left, hand) =
                release item.token t a b (closed_sound id item s h) e (λ j i. nowhere i)
                  (withdraw_arms-Reduces proc (some item.token) (unpark item.token a))
                  (disarmed proc item.token (unpark item.token a) (closed_no_item id item s h g o)
                    (closed_no_host id item s t h g o e)) in
              then-Keeps _
                (leave_single-Keeps proc item.token item.element (completed proc item.element b)
                  left hand)
                (run-Keeps lib proc fuel)))

  pub answer_decision-Keeps :
      (token : TokenId) (t : Token) (path : List String) (answer : Option Value)
      (reason : Option String) (s : InstanceState)
      → IsTended s
      → get token s.tokens ≡ some t
      → t.wait ≡ decision
      → Keeps (answer_decision lib proc fuel token t path answer reason s)
  unfolding answer_decision
  answer_decision-Keeps token t path none reason s h e w = run-Keeps lib proc fuel _ (
      freeze-IsSound proc token t.node none reason (in_scope t.scope (new s)) h
        (parked-Stoppable h e))
  answer_decision-Keeps token t path (some v) reason s h e w =
      let none_there = λ (c : Claim) (n : Names (holdings s) token c).
        none_at_decision c (subst (Fits c) w (Fits-of (new s) c h e n)) in
      let a : Advancer = record {
        state = record s { variables = assign s.variables path v };
        events = decision_evaluated (node_id proc t.node) v (reason_of lib proc fuel v reason) ∷ [];
        queue = [];
        scope = t.scope;
        reask = [];
      } in
      let b = withdraw_arms proc (some token) (unpark token a) in
      let (left, hand) =
        release token t a b h e (λ j i. nowhere i)
          (withdraw_arms-Reduces proc (some token) (unpark token a))
          (disarmed proc token (unpark token a) (λ q n. none_there (item_of q) n)
            (λ q n. none_there (host_of q) n)) in
      then-Keeps _ (leave_single-Keeps proc token t.node (completed proc t.node b) left hand)
        (run-Keeps lib proc fuel)

  pub fail_item-Keeps :
      (id : WorkItemId) (item : WorkItemState) (code : Option String) (s : InstanceState)
      → IsTended s
      → get id s.work_items ≡ some item
      → item.is_open ≡ true
      → Keeps (fail_item lib proc fuel id item code s)
  unfolding fail_item
  fail_item-Keeps id item code s h g o =
      let a =
        push_event (work_item_failed id (node_id proc item.element) code)
          (new (closed_state id item s)) in
      let at = scope_or root (get item.token s.tokens) in
      on_catch Keeps (catcher proc a.state item.element item.token at code)
        (λ target boundary e.
          then-Keeps _
            (interrupt_to_boundary-Keeps proc target boundary a (record {
              sound = closed_sound id item s h;
              no_item =
                  catcher-no_item proc a a.state item.element item.token at code target boundary
                    (closed_sound id item s h) refl (closed_no_item id item s h g o) e;
              unasked = λ j i. nowhere i;
            }))
            (run-Keeps lib proc fuel))
        (keep (
          freeze-IsSound proc item.token item.element code none a (closed_sound id item s h)
            (record {
              below = h.known item.token (item_of id) (names_item id item g o refl);
              unmoved = λ m i. nowhere i;
              unhosted = λ q e n.
                  let (t, p) =
                    item_parked (new s) (get item.token s.tokens) h refl
                      (names_item id item g o refl) in
                  cc (e, p);
            })))
