-- ===== src/Step/Commands/Repair.antt =====
-- The repair of an open incident: what it refuses, and what each disposition does.
pub mod Outside
pub mod Resume
pub mod Asked
use rbpmn.Common.{
  ℕ, String, Bool, true, false, not, ◌&&◌, ◌||◌, Option, none, some, is_none, is_some, List, [],
  ◌∷◌, ◌++◌, ◌==◌, filter, if◌then◌else◌, is_nil,
}
use rbpmn.Condition.Decimals.{codes, trim}
use rbpmn.Json.{Value, is_empty}
use rbpmn.Json.Merge.{merge_patch}
use rbpmn.Json.Paths.{assign}
use rbpmn.Process.{
  NodeIx, ExecutableProcess, ExecKind, Platform, business_rule, kind_of, node_id, is_business_rule,
  is_event_gateway, resume_point,
}
use rbpmn.State.{
  InstanceState, TokenId, Token, WaitKind, incident, halted, in_flight, awaiting_decision, active,
  open_incident,
}
use rbpmn.Event.{variables_patched, incident_repaired}
use rbpmn.Step.Outcome.{
  Advancer, Disposition, retry, advance, divert, abandon, abandon_instance, kind, Run, ok, fault,
  ◌>>=◌, Stepped, refused, finish, Refusal, no_reason, cause_unknown, gateway_has_no_single_way_on,
  decision_needs_an_answer, answer_only_for_a_decision, nothing_catches, a_join_would_wait,
  incident_not_open, repair_refused, invariant, no_cause, panicked, push_event, push_move, in_scope,
  completed, new,
}
use rbpmn.Step.Withdraw.{terminate}
use rbpmn.Step.Advance.{leave_single, complete_scope_if_empty, unpark}
use rbpmn.Step.Advance.Enter.{run}
use rbpmn.Step.Boundary.{catcher, interrupt_to_boundary, abandon_would_strand_a_join}

-- Merges a patch that is not the empty object, and says so.
unfoldable pub apply_patch : Value → Advancer → Advancer
apply_patch patch a =
    if is_empty patch
    then a
    else push_event (variables_patched patch)
        (record a { state = record (a.state) { variables = merge_patch a.state.variables patch } })

abbrev pub is_incident : WaitKind → Bool
is_incident incident = true
is_incident _ = false

abbrev pub is_halted : WaitKind → Bool
is_halted (halted _) = true
is_halted _ = false

-- The tokens at an incident, in id order.
unfoldable pub causes : InstanceState → List (TokenId × Token)
causes s = filter (λ e. is_incident e.1.wait) s.tokens

abbrev pub is_abandon_instance : Disposition → Bool
is_abandon_instance abandon_instance = true
is_abandon_instance _ = false

abbrev pub same_incident : Option ℕ → ℕ → Bool
same_incident none n = false
same_incident (some m) n = m == n

-- `reason.trim().is_empty()`.
unfoldable pub is_blank : String → Bool
is_blank reason = is_nil (trim (codes reason))

abbrev pub code_of : Disposition → Option String
code_of (divert code) = code
code_of _ = none

abbrev pub answer_of : Disposition → Option Value
answer_of (advance _ answer) = answer
answer_of _ = none

module _ (proc : ExecutableProcess) where
  unfoldable pub refusal_to_advance : ExecKind → Value → Option Value → Option Refusal
  refusal_to_advance kind patch answer =
      if is_event_gateway kind
      then some gateway_has_no_single_way_on
      else if is_business_rule kind && (is_none answer || not (is_empty patch))
      then some decision_needs_an_answer
      else if not (is_business_rule kind) && is_some answer
      then some answer_only_for_a_decision
      else none

  -- Why the resume point of `cause`, parked as `parked`, does not allow the disposition.
  unfoldable pub refusal : Disposition → TokenId → Token → InstanceState → Option Refusal
  refusal (retry _) cause parked s = none
  refusal abandon_instance cause parked s = none
  refusal (advance patch answer) cause parked s =
      refusal_to_advance (kind_of proc (resume_point proc parked.node)) patch answer
  refusal (divert code) cause parked s =
      if is_none (catcher proc s (resume_point proc parked.node) cause parked.scope code)
      then some nothing_catches
      else none
  refusal abandon cause parked s =
      if abandon_would_strand_a_join proc s cause parked.scope (resume_point proc parked.node)
      then some a_join_would_wait
      else none

  unfoldable pub write_answer : ExecKind → Option Value → Advancer → Advancer
  write_answer (business_rule _ result) (some answer) a = record a {
    state = record (a.state) { variables = assign a.state.variables result answer };
  }
  write_answer _ _ a = a

  unfoldable pub divert_to : Option (TokenId × NodeIx) → Advancer → Run
  divert_to none a = fault panicked a
  divert_to (some (target, boundary)) a = interrupt_to_boundary proc target boundary a

  -- Each disposition at the resume point, but the last.
  unfoldable pub dispose : Disposition → TokenId → Token → InstanceState → Advancer → Run
  dispose (retry _) cause parked s a = ok (
      push_move
        (record {
          token = cause;
          node = resume_point proc parked.node;
          via = none;
          scope = parked.scope;
        })
        (unpark cause a))
  dispose (advance _ answer) cause parked s a =
      let resume = resume_point proc parked.node in
      leave_single proc cause resume
        (completed proc resume (write_answer (kind_of proc resume) answer (unpark cause a)))
  dispose (divert code) cause parked s a =
      divert_to (catcher proc s (resume_point proc parked.node) cause parked.scope code) a
  dispose abandon cause parked s a = complete_scope_if_empty proc parked.scope (unpark cause a)
  dispose abandon_instance cause parked s a = ok (terminate proc a)

  -- One halted token: a move in flight goes on, a decision is asked again after the moves.
  unfoldable pub resume_one : TokenId → Token → WaitKind → Advancer → Advancer
  resume_one id t (halted (in_flight via)) a =
      push_move (record { token = id; node = t.node; via = via; scope = t.scope }) (unpark id a)
  resume_one id t (halted awaiting_decision) a = record a { reask = a.reask ++ id ∷ [] }
  resume_one id t _ a = a

  unfoldable pub resume_each : List (TokenId × Token) → Advancer → Advancer
  resume_each [] a = a
  resume_each ((id, t) ∷ ts) a = resume_each ts (resume_one id t t.wait a)

  unfoldable pub resume_halted : Advancer → Advancer
  resume_halted a = resume_each (filter (λ e. is_halted e.1.wait) a.state.tokens) a

  unfoldable pub patch_of : Disposition → Advancer → Advancer
  patch_of (retry patch) a = apply_patch patch a
  patch_of (advance patch _) a = apply_patch patch a
  patch_of _ a = a

  -- The event, the patch and the status that every accepted repair begins with.
  unfoldable pub begin_repair : ℕ → Disposition → String → Token → InstanceState → Advancer
  begin_repair n d reason parked s =
      let a = patch_of d (
        push_event
          (incident_repaired n (node_id proc parked.node) (kind d) (code_of d) (answer_of d) reason)
          (new s)) in
      in_scope parked.scope (record a { state = record (a.state) { status = active } })

  module _ (lib : Platform) (fuel : ℕ) where
    unfoldable pub carry_out : ℕ → Disposition → String → TokenId → Token → InstanceState → Run
    carry_out n d reason cause parked s =
        let a = begin_repair n d reason parked s in
        if is_abandon_instance d
        then ok (terminate proc a)
        else dispose d cause parked s a >>= λ b. run lib proc fuel (resume_halted b)

    unfoldable pub repair_cause :
        ℕ → Disposition → String → List (TokenId × Token) → InstanceState → Stepped
    repair_cause n d reason [] s = (s, refused (invariant no_cause))
    repair_cause n d reason ((cause, parked) ∷ others) s =
        if not (is_nil others) && not (is_abandon_instance d)
        then (s, refused (repair_refused cause_unknown))
        else elim (refusal d cause parked s) [
          | some why ↦ (s, refused (repair_refused why))
          | none ↦ finish (carry_out n d reason cause parked s)
        ]

    unfoldable pub repair : ℕ → Disposition → String → InstanceState → Stepped
    repair n d reason s =
        if not (same_incident (open_incident s) n)
        then (s, refused (incident_not_open n (open_incident s)))
        else if is_blank reason
        then (s, refused (repair_refused no_reason))
        else repair_cause n d reason (causes s) s
