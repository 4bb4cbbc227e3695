-- ===== src/Step/Outcome.antt =====
-- The commands, the refusals and the advancer of step.rs.
use rbpmn.Common.{ℕ, String, Option, List, [], ◌∷◌, ◌++◌}
use rbpmn.Json.{Value}
use rbpmn.Process.{NodeIx, FlowIx, ExecutableProcess, node_id}
use rbpmn.State.{
  InstanceState, InstanceStatus, TokenId, WorkItemId, TimerId, SubscriptionId, ScopeId,
}
use rbpmn.Event.{Event, element_started, element_completed, RepairKind}
use rbpmn.State

pub data Disposition : Type 0 where
  retry : Value → Disposition
  advance : Value → Option Value → Disposition
  divert : Option String → Disposition
  abandon abandon_instance : Disposition

-- `Disposition::kind`.
abbrev pub kind : Disposition → RepairKind
kind (retry _) = RepairKind.retry
kind (advance _ _) = RepairKind.advance
kind (divert _) = RepairKind.divert
kind abandon = RepairKind.abandon
kind abandon_instance = RepairKind.abandon_instance

pub data Command : Type 0 where
  start : Value → Command
  complete_work_item : WorkItemId → Value → Command
  raise_error : WorkItemId → Option String → Command
  fire_timer : TimerId → Command
  deliver_message : SubscriptionId → Value → Command
  complete_decision : TokenId → Option Value → Option String → Command
  -- incident, disposition, reason
  repair : ℕ → Disposition → String → Command

pub data Refusal : Type 0 where
  no_reason cause_unknown gateway_has_no_single_way_on decision_needs_an_answer : Refusal
  answer_only_for_a_decision nothing_catches a_join_would_wait : Refusal

-- What the text of `StepError::Invariant`, or of a panic, names.
pub data Fault : Type 0 where
  lost_token not_deciding not_a_decision no_cause unrelated_wait bad_gateway_target : Fault
  boundary_entered no_default_flow no_arrival_flow second_arrival not_one_outgoing : Fault
  lost_host lost_item lost_subscription not_a_host completed_twice no_parent_token : Fault
  no_winning_flow : Fault
  -- `unreachable!` and `expect`
  panicked : Fault

-- Why a message arm could not be opened.
pub data ArmFailure : Type 0 where
  unusable : List String → ArmFailure
  duplicate : String → String → ArmFailure

pub data StepError : Type 0 where
  already_started : StepError
  instance_not_active : InstanceStatus → StepError
  unknown_work_item work_item_not_open : WorkItemId → StepError
  unknown_timer : TimerId → StepError
  unknown_subscription : SubscriptionId → StepError
  boundary_cannot_rearm : String → ArmFailure → StepError
  incident_not_open : ℕ → Option ℕ → StepError
  repair_refused : Refusal → StepError
  invariant : Fault → StepError

-- A token in flight.
pub record Move : Type 0 where
  pub token : TokenId
  pub node : NodeIx
  pub via : Option FlowIx
  pub scope : ScopeId

-- `Advancer` with the state that its methods borrow. `reask` holds the halted decisions of a repair.
pub record Advancer : Type 0 where
  pub state : InstanceState
  pub events : List Event
  pub queue : List Move
  pub scope : ScopeId
  pub reask : List TokenId

abbrev pub new : InstanceState → Advancer
new s = record { state = s; events = []; queue = []; scope = State.root; reask = [] }

-- A method that can fail. What was written before a fault stays written.
pub data Run : Type 0 where
  ok : Advancer → Run
  fault : Fault → Advancer → Run
  -- the fuel of the queue's loop ran out
  exhausted : Advancer → Run

infixl 5 ◌>>=◌
abbrev pub ◌>>=◌ : Run → (Advancer → Run) → Run
ok a >>= f = f a
fault e a >>= f = fault e a
exhausted a >>= f = exhausted a

-- A step leaves a state, and a list of events or an error.
pub data Reply : Type 0 where
  events : List Event → Reply
  refused : StepError → Reply
  no_reply : Reply

abbrev pub Stepped : Type 0
Stepped = InstanceState × Reply

-- The end of an arm of `step`: `adv.run(state)`'s value, or the error of a `?`.
unfoldable pub finish : Run → Stepped
finish (ok a) = (a.state, events a.events)
finish (fault e a) = (a.state, refused (invariant e))
finish (exhausted a) = (a.state, no_reply)

abbrev pub push_event : Event → Advancer → Advancer
push_event e a = record a { events = a.events ++ e ∷ [] }

abbrev pub push_move : Move → Advancer → Advancer
push_move m a = record a { queue = a.queue ++ m ∷ [] }

abbrev pub in_scope : ScopeId → Advancer → Advancer
in_scope s a = record a { scope = s }

module _ (proc : ExecutableProcess) where
  abbrev pub started : NodeIx → Advancer → Advancer
  started ix = push_event (element_started (node_id proc ix))

  abbrev pub completed : NodeIx → Advancer → Advancer
  completed ix = push_event (element_completed (node_id proc ix))
