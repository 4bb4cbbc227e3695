-- ===== src/Step/OpenIncident.antt =====
-- `open_incident`: what a repair could do with the instance's open incident, for a reader.
pub mod Agreement
use rbpmn.Common.{
  ℕ, String, Bool, true, false, not, ◌&&◌, Option, none, some, is_none, is_some, List, [], ◌∷◌,
  ◌++◌, any, filter, map, ◌==◌, same_text, length, is_nil, if◌then◌else◌,
}
use rbpmn.Process.{
  NodeIx, ExecutableProcess, ExecKind, kind_of, node_id, is_business_rule, is_event_gateway,
  resume_point, error_boundary,
}
use rbpmn.State.{InstanceState, TokenId, ScopeId, Token, open_incident as incident_number}
use rbpmn.Event.{RepairKind, retry, advance, divert, abandon, abandon_instance}
use rbpmn.Step.Outcome.{
  Refusal, cause_unknown, gateway_has_no_single_way_on, nothing_catches, a_join_would_wait,
}
use rbpmn.Step.Boundary.{outward, catcher, abandon_would_strand_a_join}
use rbpmn.Step.Commands.Repair.{causes, is_halted}

pub record CaughtCode : Type 0 where
  pub code : Option String
  pub caught_at : String
  pub tears_down : Option String

pub data Takes : Type 0 where
  nothing patch answer code : Takes

pub record RepairOption : Type 0 where
  pub disposition : RepairKind
  pub takes : Takes
  pub codes : List CaughtCode
  pub refused : Option Refusal

pub record OpenIncident : Type 0 where
  pub incident : ℕ
  pub element : String
  pub resume : String
  pub halted : ℕ
  pub options : List RepairOption

unfoldable pub same_code : Option String → Option String → Bool
same_code none none = true
same_code (some a) (some b) = same_text a b
same_code _ _ = false

-- A declared code joins the candidates once.
unfoldable pub add_candidate : Option String → List (Option String) → List (Option String)
add_candidate none candidates = candidates
add_candidate (some c) candidates =
    if any (same_code (some c)) candidates then candidates else candidates ++ some c ∷ []

unfoldable pub declared_code : ExecKind → Option String
declared_code (error_boundary c) = c
declared_code _ = none

abbrev pub is_divert : RepairKind → Bool
is_divert divert = true
is_divert _ = false

module _ (proc : ExecutableProcess) where
  unfoldable pub codes_of :
      List (Option String × NodeIx) → List (Option String) → List (Option String)
  codes_of [] candidates = candidates
  codes_of ((_, b) ∷ bs) candidates =
      codes_of bs (add_candidate (declared_code (kind_of proc b)) candidates)

  -- The codeless divert, then every code that a boundary on the walk declares.
  unfoldable pub candidates_of :
      List (TokenId × NodeIx) → List (Option String) → List (Option String)
  candidates_of [] candidates = candidates
  candidates_of ((_, host) ∷ walk) candidates =
      candidates_of walk (codes_of (proc.error_boundaries host) candidates)

  -- The host of the first step of the walk that interrupts `target`, unless that is the first step.
  unfoldable pub host_at : List (TokenId × NodeIx) → TokenId → Option String
  host_at [] target = none
  host_at ((t, host) ∷ walk) target =
      if t == target then some (node_id proc host) else host_at walk target

  unfoldable pub torn_down : List (TokenId × NodeIx) → TokenId → Option String
  torn_down [] target = none
  torn_down ((t, _) ∷ walk) target = if t == target then none else host_at walk target

  unfoldable pub land :
      InstanceState → NodeIx → TokenId → ScopeId → List (Option String) → List CaughtCode
  land s host token at [] = []
  land s host token at (c ∷ rest) = elim (catcher proc s host token at c) [
    | none ↦ land s host token at rest
    | some (target, boundary) ↦
        record {
          code = c;
          caught_at = node_id proc boundary;
          tears_down = torn_down (outward s host token at) target;
        }
        ∷ land s host token at rest
  ]

  unfoldable pub landing_codes : InstanceState → NodeIx → TokenId → ScopeId → List CaughtCode
  landing_codes s host token at =
      land s host token at (candidates_of (outward s host token at) (none ∷ []))

  -- The verdict on one disposition, as far as the incident decides it.
  unfoldable pub verdict_on : RepairKind → TokenId → Token → InstanceState → Option Refusal
  verdict_on advance cause parked s =
      if is_event_gateway (kind_of proc (resume_point proc parked.node))
      then some gateway_has_no_single_way_on
      else none
  verdict_on divert cause parked s =
      if is_nil (landing_codes s (resume_point proc parked.node) cause parked.scope)
      then some nothing_catches
      else none
  verdict_on abandon cause parked s =
      if abandon_would_strand_a_join proc s cause parked.scope (resume_point proc parked.node)
      then some a_join_would_wait
      else none
  verdict_on _ cause parked s = none

  unfoldable pub is_whole : RepairKind → Bool
  is_whole abandon_instance = true
  is_whole _ = false

  unfoldable pub verdict : RepairKind → Bool → TokenId → Token → InstanceState → Option Refusal
  verdict d several cause parked s =
      if is_whole d
      then none
      else if several
      then some cause_unknown
      else verdict_on d cause parked s

  unfoldable pub takes_of : RepairKind → ExecKind → Takes
  takes_of retry kind = patch
  takes_of advance kind = if is_business_rule kind then answer else patch
  takes_of divert kind = code
  takes_of abandon kind = nothing
  takes_of abandon_instance kind = nothing

  -- The codes of the option: those of a divert that would land.
  unfoldable pub offered : RepairKind → Option Refusal → List CaughtCode → List CaughtCode
  offered divert none codes = codes
  offered _ _ codes = []

  unfoldable pub option_for : RepairKind → Bool → TokenId → Token → InstanceState → RepairOption
  option_for d several cause parked s =
      let resume = resume_point proc parked.node in
      let refused = verdict d several cause parked s in
      record {
        disposition = d;
        takes = takes_of d (kind_of proc resume);
        codes = offered d refused (landing_codes s resume cause parked.scope);
        refused = refused;
      }

  unfoldable pub report : ℕ → List (TokenId × Token) → InstanceState → Option OpenIncident
  report n [] s = none
  report n ((cause, parked) ∷ others) s = some (record {
    incident = n;
    element = node_id proc parked.node;
    resume = node_id proc (resume_point proc parked.node);
    halted = length (filter (λ e. is_halted e.1.wait) s.tokens);
    options =
        map (λ d. option_for d (not (is_nil others)) cause parked s)
          (retry ∷ advance ∷ divert ∷ abandon ∷ abandon_instance ∷ []);
  })

  unfoldable pub open_incident : InstanceState → Option OpenIncident
  open_incident s = elim (incident_number s) [ none ↦ none | some n ↦ report n (causes s) s ]
