-- ===== src/Step/OpenIncident/Agreement.antt =====
-- The read `open_incident` and the verb `repair` give one verdict.
use mathlib.Core.Option.{some-injective}
use mathlib.Core.Path.{subst}
use rbpmn.Event.{RepairKind}
use rbpmn.Common.{
  ℕ, ◌≡◌, refl, Bool, true, false, not, Option, none, some, arith, String, List, [], ◌∷◌, map,
  is_nil, is_some, Option-cases, inl, inr, if◌then◌else◌,
}
use rbpmn.Json.{Value, is_empty}
use rbpmn.Process.{ExecutableProcess, ExecKind, Platform, kind_of, is_event_gateway, resume_point}
use rbpmn.State.{InstanceState, Token, TokenId, open_incident as incident_number}
use rbpmn.Step.Outcome.{
  Command, Disposition, retry, advance, divert, abandon, abandon_instance, kind, Refusal,
  gateway_has_no_single_way_on, Reply, Stepped, refused, repair_refused, finish, Run, ok, fault,
  exhausted,
}
use rbpmn.Step.Commands.{step}
use rbpmn.Step.Commands.Repair.{
  repair, repair_cause, refusal, refusal_to_advance, is_blank, causes, carry_out,
}
use rbpmn.Step.OpenIncident.{
  Takes, nothing, answer, verdict, verdict_on, takes_of, is_whole, RepairOption, OpenIncident,
  option_for, report, open_incident,
}

-- The refusal that a reply to a repair states.
abbrev pub refusal_in : Reply → Option Refusal
refusal_in (refused (repair_refused why)) = some why
refusal_in _ = none

-- The option of a disposition, as a reader finds it in the list.
abbrev pub same_kind : RepairKind → RepairKind → Bool
same_kind RepairKind.retry RepairKind.retry = true
same_kind RepairKind.advance RepairKind.advance = true
same_kind RepairKind.divert RepairKind.divert = true
same_kind RepairKind.abandon RepairKind.abandon = true
same_kind RepairKind.abandon_instance RepairKind.abandon_instance = true
same_kind _ _ = false

abbrev pub refusal_listed : RepairKind → List RepairOption → Option Refusal
refusal_listed k [] = none
refusal_listed k (o ∷ os) = if same_kind o.disposition k then o.refused else refusal_listed k os

abbrev pub takes_listed : RepairKind → List RepairOption → Takes
takes_listed k [] = nothing
takes_listed k (o ∷ os) = if same_kind o.disposition k then o.takes else takes_listed k os

-- The disposition carries what the read says it takes; a divert's code is another question.
abbrev pub Fits : Disposition → Takes → Type 0
Fits (advance v given) answer = (is_empty v ≡ true) × (is_some given ≡ true)
Fits (advance v given) _ = given ≡ none
Fits (divert _) _ = ⊥
Fits _ _ = Unit

finish-refusal_in : (r : Run) → refusal_in (finish r).1 ≡ none
unfolding finish
finish-refusal_in (ok a) = refl
finish-refusal_in (fault e a) = refl
finish-refusal_in (exhausted a) = refl

module _ (proc : ExecutableProcess) where
  refusal_to_advance-verdict :
      (k : ExecKind) (v : Value) (given : Option Value)
      → Fits (advance v given) (takes_of proc (kind (advance v given)) k)
      → refusal_to_advance proc k v given
        ≡ (if is_event_gateway k then some gateway_has_no_single_way_on else none)
  unfolding refusal_to_advance takes_of
  refusal_to_advance-verdict k v given h = ground arith

  refusal-verdict_on :
      (d : Disposition) (cause : TokenId) (parked : Token) (s : InstanceState)
      → Fits d (takes_of proc (kind d) (kind_of proc (resume_point proc parked.node)))
      → refusal proc d cause parked s ≡ verdict_on proc (kind d) cause parked s
  unfolding refusal verdict_on
  refusal-verdict_on (retry v) cause parked s h = refl
  refusal-verdict_on (advance v given) cause parked s h =
      refusal_to_advance-verdict (kind_of proc (resume_point proc parked.node)) v given h
  refusal-verdict_on (divert c) cause parked s h = elim h [ ]
  refusal-verdict_on abandon cause parked s h = refl
  refusal-verdict_on abandon_instance cause parked s h = refl

  whole-refusal :
      (cause : TokenId) (parked : Token) (s : InstanceState)
      → refusal proc abandon_instance cause parked s ≡ none
  unfolding refusal
  whole-refusal cause parked s = refl

  module _ (lib : Platform) (fuel : ℕ) where
    refusal_in-carried :
        (why : Option Refusal) (r : Run) (s : InstanceState)
        → refusal_in
            (elim why as (λ _. Stepped) [
              | some w ↦ (s, refused (repair_refused w))
              | none ↦ finish r
            ]).1
          ≡ why
    refusal_in-carried none r s = finish-refusal_in r
    refusal_in-carried (some w) r s = refl

    repair_cause-verdict :
        (n : ℕ) (d : Disposition) (reason : String) (cause : TokenId) (parked : Token)
        (others : List (TokenId × Token)) (s : InstanceState)
        → Fits d (takes_of proc (kind d) (kind_of proc (resume_point proc parked.node)))
        → refusal_in (repair_cause proc lib fuel n d reason ((cause, parked) ∷ others) s).1
          ≡ verdict proc (kind d) (not (is_nil others)) cause parked s
    unfolding repair_cause verdict is_whole
    repair_cause-verdict n d reason cause parked others s h = ground (
      arith,
      refusal-verdict_on d cause parked s h,
      whole-refusal cause parked s,
      refusal_in-carried (refusal proc d cause parked s)
          (carry_out proc lib fuel n d reason cause parked s) s,
    )

    repair-verdict :
        (n : ℕ) (d : Disposition) (reason : String) (cause : TokenId) (parked : Token)
        (others : List (TokenId × Token)) (s : InstanceState)
        → incident_number s ≡ some n
        → is_blank reason ≡ false
        → causes s ≡ (cause, parked) ∷ others
        → Fits d (takes_of proc (kind d) (kind_of proc (resume_point proc parked.node)))
        → refusal_in (step lib proc fuel (Command.repair n d reason) s).1
          ≡ verdict proc (kind d) (not (is_nil others)) cause parked s
    unfolding step repair
    repair-verdict n d reason cause parked others s is_open written at_cause fits =
        ground (arith, repair_cause-verdict n d reason cause parked others s fits)

    abbrev options_at : Bool → TokenId → Token → InstanceState → List RepairOption
    options_at several cause parked s =
        map (λ d. option_for proc d several cause parked s)
          (RepairKind.retry ∷ RepairKind.advance ∷ RepairKind.divert ∷ RepairKind.abandon
            ∷ RepairKind.abandon_instance ∷ [])

    listed :
        (k : RepairKind) (several : Bool) (cause : TokenId) (parked : Token) (s : InstanceState)
        → (refusal_listed k (options_at several cause parked s)
            ≡ verdict proc k several cause parked s)
          × (takes_listed k (options_at several cause parked s)
              ≡ takes_of proc k (kind_of proc (resume_point proc parked.node)))
    unfolding option_for
    listed RepairKind.retry several cause parked s = (refl, refl)
    listed _ several cause parked s = (refl, refl)

    -- The read and the verb give one verdict, for every disposition but a divert.
    abbrev Agrees : InstanceState → OpenIncident → Type 0
    Agrees s r =
        (d : Disposition) (reason : String)
        → is_blank reason ≡ false
        → Fits d (takes_listed (kind d) r.options)
        → refusal_in (step lib proc fuel (Command.repair r.incident d reason) s).1
          ≡ refusal_listed (kind d) r.options

    report-Agrees :
        (n : ℕ) (l : List (TokenId × Token)) (s : InstanceState) (r : OpenIncident)
        → incident_number s ≡ some n
        → causes s ≡ l
        → report proc n l s ≡ some r
        → Agrees s r
    unfolding report
    report-Agrees n [] s r e at_cause h = cc
    report-Agrees n ((cause, parked) ∷ others) s r e at_cause h =
        subst (Agrees s) (some-injective _ _ h) λ d reason written fits.
          let (same, takes) = listed (kind d) (not (is_nil others)) cause parked s in
          rw same
            (repair-verdict n d reason cause parked others s e written at_cause (rw takes at fits))

    -- What the read `open_incident` reports is what a repair meets: a repair that names the reported
    -- incident, with a reason and with what the read says its disposition takes, is refused just
    -- where the read refuses that disposition, and for the reason that the read gives. A divert,
    -- whose codes the read lists apart, is left out.
    pub open_incident-repair :
        (s : InstanceState) (r : OpenIncident)
        → open_incident proc s ≡ some r
        → (d : Disposition) (reason : String) → is_blank reason ≡ false
        → Fits d (takes_listed (kind d) r.options)
        → refusal_in (step lib proc fuel (Command.repair r.incident d reason) s).1
          ≡ refusal_listed (kind d) r.options
    unfolding open_incident
    open_incident-repair s r h = elim (Option-cases (incident_number s)) [
      | inl e ↦ cc (rw (e, open_incident) at h)
      | inr (n, e) ↦ report-Agrees n (causes s) s r e refl (rw (e, open_incident) at h)
    ]
