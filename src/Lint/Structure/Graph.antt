-- ===== src/Lint/Structure/Graph.antt =====
-- `Graph` of lint/structure.rs: the flows of a scope by the indices of its nodes. Of a node the model
-- keeps its id and its kind, with the payload of a boundary.
use rbpmn.Common.{
  ℕ, suc, String, Bool, false, ◌&&◌, Option, none, some, List, [], ◌∷◌, ◌++◌, map, filter, length,
  ◌==◌, same_text, if◌then◌else◌,
}

pub data NodeKind : Type 0 where
  start end catch throw : NodeKind
  -- `attached_to` and `cancel_activity`
  boundary : Option String → Bool → NodeKind
  service_task user_task business_rule_task receive_task : NodeKind
  exclusive_gateway parallel_gateway event_based_gateway inclusive_gateway : NodeKind
  call_activity sub_process unsupported : NodeKind

pub record FlowNode : Type 0 where
  pub id : String
  pub kind : NodeKind

pub record SequenceFlow : Type 0 where
  pub id : String
  pub source : String
  pub target : String

pub record FlowScope : Type 0 where
  pub nodes : List FlowNode
  pub flows : List SequenceFlow

-- The index of an id, from `i` on: a later node of the same id overwrites an earlier one.
unfoldable pub index_of : String → ℕ → List FlowNode → Option ℕ
index_of id i [] = none
index_of id i (node ∷ nodes) = elim (index_of id (suc i) nodes) [
  | some j ↦ some j
  | none ↦ if same_text node.id id then some i else none
]

pub record Edge : Type 0 where
  pub source : ℕ
  pub target : ℕ

abbrev pub edge_of : Option ℕ → Option ℕ → Option Edge
edge_of (some s) (some t) = some (record { source = s; target = t })
edge_of _ _ = none

-- `endpoints` of one flow.
unfoldable pub endpoints : List FlowNode → SequenceFlow → Option Edge
endpoints nodes f = edge_of (index_of f.source 0 nodes) (index_of f.target 0 nodes)

-- The resolved flows, in order.
unfoldable pub edges : List FlowNode → List SequenceFlow → List Edge
edges nodes [] = []
edges nodes (f ∷ flows) = elim (endpoints nodes f) [
  | none ↦ edges nodes flows
  | some e ↦ e ∷ edges nodes flows
]

abbrev pub attached_to : NodeKind → Option String
attached_to (boundary host _) = host
attached_to _ = none

abbrev pub cancels : NodeKind → Bool
cancels (boundary _ cancel_activity) = cancel_activity
cancels _ = false

-- `host_of` of one node.
unfoldable pub host_of : List FlowNode → FlowNode → Option ℕ
host_of nodes node = elim (attached_to node.kind) [ none ↦ none | some h ↦ index_of h 0 nodes ]

-- The boundaries of `host` among the nodes from the index `i` on.
unfoldable pub boundaries_from : List FlowNode → ℕ → ℕ → List FlowNode → List ℕ
boundaries_from nodes host i [] = []
boundaries_from nodes host i (node ∷ rest) = elim (host_of nodes node) [
  | none ↦ boundaries_from nodes host (suc i) rest
  | some h ↦
      let more = boundaries_from nodes host (suc i) rest in if h == host then i ∷ more else more
]

-- Of these, those that cancel the host.
unfoldable pub interrupting_from : List FlowNode → ℕ → ℕ → List FlowNode → List ℕ
interrupting_from nodes host i [] = []
interrupting_from nodes host i (node ∷ rest) =
    let more = interrupting_from nodes host (suc i) rest in
    elim (host_of nodes node) [
      | none ↦ more
      | some h ↦ if h == host && cancels node.kind then i ∷ more else more
    ]

-- The hosts of the node at the index `v`, counted from `i`.
unfoldable pub hosts_from : List FlowNode → ℕ → ℕ → List FlowNode → List ℕ
hosts_from nodes v i [] = []
hosts_from nodes v i (node ∷ rest) =
    let more = hosts_from nodes v (suc i) rest in
    if i == v then elim (host_of nodes node) [ none ↦ [] | some h ↦ h ∷ [] ] else more

module _ (g : FlowScope) where
  unfoldable pub flow_out : ℕ → List Edge
  flow_out v = filter (λ e. e.source == v) (edges g.nodes g.flows)

  unfoldable pub flow_in : ℕ → List Edge
  flow_in v = filter (λ e. e.target == v) (edges g.nodes g.flows)

  unfoldable pub succs : ℕ → List ℕ
  succs v = map (λ e. e.target) (flow_out v) ++ boundaries_from g.nodes v 0 g.nodes

  unfoldable pub preds : ℕ → List ℕ
  preds v = map (λ e. e.source) (flow_in v) ++ hosts_from g.nodes v 0 g.nodes

  -- The successors of a token that nothing interrupts, and of a branch with its interruptions.
  abbrev pub flow_succs : ℕ → List ℕ
  flow_succs v = map (λ e. e.target) (flow_out v)

  unfoldable pub region_succs : ℕ → List ℕ
  region_succs v = flow_succs v ++ interrupting_from g.nodes v 0 g.nodes

  abbrev pub in_deg : ℕ → ℕ
  in_deg v = length (flow_in v)

  abbrev pub out_deg : ℕ → ℕ
  out_deg v = length (flow_out v)
