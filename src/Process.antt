-- ===== src/Process.antt =====
-- The executable process of compile.rs, as the step function reads it.
--
-- `nodes` and `flows` are read by an index that `compile` made, so in range: the tables are total
-- functions here, and so are the maps from a host to its boundaries (an absent key has none).
use rbpmn.Common.{
  ℕ, String, Bool, true, false, Option, none, some, List, [], ◌∷◌, find, is_none, same_text,
  or_else, if◌then◌else◌,
}
use rbpmn.Condition.{Expr}
use rbpmn.Condition.Decimals.{codes}
use rbpmn.Iso8601.Texts.{Complaint, Checked, good, bad}
use rbpmn.Iso8601.Datetime.{validate_datetime}
use rbpmn.Iso8601.Float.{Float}
use rbpmn.Iso8601.Duration.{validate_duration}
use rbpmn.Iso8601.Cycle.{validate_cycle}
use rbpmn.Json.{Value, string}
use rbpmn.Json.Paths.{resolve as resolve_path}

abbrev pub NodeIx : Type 0
NodeIx = ℕ

abbrev pub FlowIx : Type 0
FlowIx = ℕ

abbrev pub ScopeIx : Type 0
ScopeIx = ℕ

pub data TimerDue : Type 0 where
  duration date cycle : String → TimerDue

pub data TimerKind : Type 0 where
  kind_duration kind_date kind_cycle : TimerKind

pub data TimerSource : Type 0 where
  literal : TimerDue → TimerSource
  variable : TimerKind → List String → TimerSource

pub data WorkKind : Type 0 where
  service user : WorkKind

pub data ExecKind : Type 0 where
  start end terminate_end : ExecKind
  task : WorkKind → String → ExecKind
  business_rule : String → List String → ExecKind
  exclusive_gateway : Option FlowIx → ExecKind
  parallel_gateway : ExecKind
  error_boundary : Option String → ExecKind
  timer_catch : TimerSource → ExecKind
  message_catch : String → List String → ExecKind
  timer_boundary : TimerSource → Bool → ExecKind
  message_boundary : String → List String → Bool → ExecKind
  event_based_gateway : ExecKind
  sub_process : ScopeIx → ExecKind

pub record ExecNode : Type 0 where
  pub id : String
  pub kind : ExecKind
  pub incoming : List FlowIx
  pub outgoing : List FlowIx

pub record ExecFlow : Type 0 where
  pub id : String
  pub source : NodeIx
  pub target : NodeIx
  pub condition : Option Expr

pub record ExecutableProcess : Type 0 where
  pub process_id : String
  pub node : NodeIx → ExecNode
  pub flow : FlowIx → ExecFlow
  -- host node -> (error code, or `none` for the catch-all; boundary node)
  pub error_boundaries : NodeIx → List (Option String × NodeIx)
  -- host node -> the armable boundaries, in declaration order
  pub boundaries : NodeIx → List NodeIx
  -- boundary node -> its host
  pub host_of : NodeIx → Option NodeIx
  pub on_side_path : NodeIx → Bool
  pub scope_start : ScopeIx → NodeIx
  pub start : NodeIx

-- The number of the document's numbers that serde_json gives, and the doubles that a duration is
-- computed with: parameters of the model.
pub record Platform : Type 1 where
  -- `as_i64` or else `as_u64`, printed: the canonical text of an exact integer
  pub exact_integer : String → Option String
  pub float : Float

abbrev pub kind_of : ExecutableProcess → NodeIx → ExecKind
kind_of proc ix = (proc.node ix).kind

abbrev pub node_id : ExecutableProcess → NodeIx → String
node_id proc ix = (proc.node ix).id

-- `TimerKind::due`.
abbrev pub due : TimerKind → String → TimerDue
due kind_duration text = duration text
due kind_date text = date text
due kind_cycle text = cycle text

-- `TimerKind::validate`.
abbrev pub validate : Platform → TimerKind → String → Checked (Unit {0})
validate lib kind_duration text = validate_duration lib.float (codes text)
validate lib kind_date text = validate_datetime (codes text)
validate lib kind_cycle text = validate_cycle lib.float (codes text)

-- Why a deadline did not resolve; the source prints it as prose.
pub data ResolveFailure : Type 0 where
  not_a_string : Value → ResolveFailure
  not_valid : String → Complaint → ResolveFailure

pub data Resolved : Type 0 where
  resolved : TimerDue → Resolved
  unresolved : ResolveFailure → Resolved

unfoldable pub due_of_text : Platform → TimerKind → Value → Resolved
due_of_text lib kind (string text) = elim (validate lib kind text) [
  | good _ ↦ resolved (due kind text)
  | bad why ↦ unresolved (not_valid text why)
]
due_of_text lib kind value = unresolved (not_a_string value)

-- `TimerSource::resolve`.
unfoldable pub resolve : Platform → TimerSource → Value → Resolved
resolve lib (literal d) variables = resolved d
resolve lib (variable kind path) variables = due_of_text lib kind (resolve_path variables path)

-- The qualified name that a failed resolution is reported under.
pub data SourceName : Type 0 where
  as_written : TimerDue → SourceName
  path_of : List String → SourceName

abbrev pub name : TimerSource → SourceName
name (literal d) = as_written d
name (variable kind path) = path_of path

abbrev pub message_arm_of : ExecKind → Option (String × List String)
message_arm_of (message_catch message key) = some (message, key)
message_arm_of (message_boundary message key _) = some (message, key)
message_arm_of _ = none

abbrev pub message_arm : ExecutableProcess → NodeIx → Option (String × List String)
message_arm proc ix = message_arm_of (kind_of proc ix)

abbrev pub boundary_interrupts : ExecKind → Bool
boundary_interrupts (timer_boundary _ interrupting) = interrupting
boundary_interrupts (message_boundary _ _ interrupting) = interrupting
boundary_interrupts _ = true

abbrev pub is_business_rule : ExecKind → Bool
is_business_rule (business_rule _ _) = true
is_business_rule _ = false

abbrev pub is_event_gateway : ExecKind → Bool
is_event_gateway event_based_gateway = true
is_event_gateway _ = false

abbrev pub has_code : String → Option String → Bool
has_code c none = false
has_code c (some k) = same_text k c

abbrev pub boundary_of : Option (Option String × NodeIx) → Option NodeIx
boundary_of none = none
boundary_of (some (_, b)) = some b

unfoldable pub exact_match :
    List (Option String × NodeIx) → Option String → Option (Option String × NodeIx)
exact_match candidates none = none
exact_match candidates (some c) = find (λ e. has_code c e.0) candidates

-- `ExecutableProcess::error_boundary`: the one declared for that code, else the catch-all.
unfoldable pub error_boundary_for : ExecutableProcess → NodeIx → Option String → Option NodeIx
error_boundary_for proc host code = boundary_of (
    or_else (exact_match (proc.error_boundaries host) code)
      (find (λ e. is_none e.0) (proc.error_boundaries host)))

unfoldable pub gateway_before : ExecutableProcess → List FlowIx → NodeIx → NodeIx
gateway_before proc (f ∷ []) node =
    if is_event_gateway (kind_of proc (proc.flow f).source) then (proc.flow f).source else node
gateway_before proc _ node = node

-- Where a repair re-enters for an incident parked at a node.
unfoldable pub resume_point : ExecutableProcess → NodeIx → NodeIx
resume_point proc ix = elim (proc.host_of ix) [
  | some host ↦ host
  | none ↦ gateway_before proc (proc.node ix).incoming ix
]
