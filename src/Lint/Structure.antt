-- ===== src/Lint/Structure.antt =====
-- `check` of lint/structure.rs. A diagnostic is its rule and its element, without the prose.
pub mod Graph
pub mod Bounds
pub mod Silent
pub mod WellFormed
pub mod Links
pub mod Neighbors
pub mod Linked
pub mod Exact
use rbpmn.Common.{
  ℕ, zero, suc, ◌+◌, String, Bool, true, false, not, ◌&&◌, Option, none, some, List, [], ◌∷◌, ◌++◌,
  map, filter, length, ltb, ◌==◌, is_nil, same_text, if◌then◌else◌,
}
use rbpmn.Lint.Reach.{reach}
use rbpmn.Lint.Structure.Graph.{
  NodeKind, boundary, FlowNode, SequenceFlow, FlowScope, index_of, Edge, edge_of, endpoints, edges,
  attached_to, cancels, host_of, boundaries_from, interrupting_from, hosts_from, flow_out, flow_in,
  succs, preds, flow_succs, region_succs, in_deg, out_deg, start, end, catch, throw, service_task,
  user_task, business_rule_task, receive_task, exclusive_gateway, parallel_gateway,
  event_based_gateway, inclusive_gateway, call_activity, sub_process, unsupported,
}

pub data Rule : Type 0 where
  bpmn_structure single_start_event no_implicit_split no_mixed_gateway : Rule

pub record Diagnostic : Type 0 where
  pub rule : Rule
  pub element : String

abbrev pub error : Rule → String → Diagnostic
error rule element = record { rule = rule; element = element }

abbrev pub is_start : NodeKind → Bool
is_start start = true
is_start _ = false

abbrev pub is_end : NodeKind → Bool
is_end end = true
is_end _ = false

abbrev pub is_unsupported : NodeKind → Bool
is_unsupported unsupported = true
is_unsupported _ = false

-- A diagnostic where a test holds.
abbrev pub when : Bool → Rule → String → List Diagnostic
when true rule element = error rule element ∷ []
when false rule element = []

-- The classes of kinds that the cardinality rules tell apart.
pub data Shape : Type 0 where
  ignored source_only sink_only gateway activity : Shape

abbrev pub shape_of : NodeKind → Shape
shape_of unsupported = ignored
shape_of start = source_only
shape_of end = sink_only
shape_of (boundary _ _) = source_only
shape_of exclusive_gateway = gateway
shape_of parallel_gateway = gateway
shape_of event_based_gateway = gateway
shape_of inclusive_gateway = gateway
shape_of _ = activity

-- No outgoing flow, or more than one.
abbrev pub one_outgoing : ℕ → String → List Diagnostic
one_outgoing outs id =
    if outs == 0 then error bpmn_structure id ∷ [] else when (ltb 1 outs) no_implicit_split id

unfoldable pub cardinality : Shape → ℕ → ℕ → String → List Diagnostic
cardinality ignored ins outs id = []
cardinality source_only ins outs id = when (ltb 0 ins) bpmn_structure id ++ one_outgoing outs id
cardinality sink_only ins outs id =
    when (ltb 0 outs) bpmn_structure id ++ when (ins == 0) bpmn_structure id
cardinality gateway ins outs id =
    when (ins == 0) bpmn_structure id
    ++ (when (outs == 0) bpmn_structure id ++ when (ltb 1 ins && ltb 1 outs) no_mixed_gateway id)
cardinality activity ins outs id = when (ins == 0) bpmn_structure id ++ one_outgoing outs id

abbrev pub is_unresolved : Option Edge → Bool
is_unresolved none = true
is_unresolved (some _) = false

unfoldable pub unresolved : List FlowNode → List SequenceFlow → List Diagnostic
unresolved nodes [] = []
unresolved nodes (f ∷ flows) =
    when (is_unresolved (endpoints nodes f)) bpmn_structure f.id ++ unresolved nodes flows

-- The indices, from `i` on, of the nodes whose kind passes.
unfoldable pub of_kind : (NodeKind → Bool) → ℕ → List FlowNode → List ℕ
of_kind p i [] = []
of_kind p i (node ∷ nodes) =
    let rest = of_kind p (suc i) nodes in if p node.kind then i ∷ rest else rest

-- A loop over the nodes, from the index `i` on.
unfoldable pub each_node : (ℕ → FlowNode → List Diagnostic) → ℕ → List FlowNode → List Diagnostic
each_node f i [] = []
each_node f i (node ∷ nodes) = f i node ++ each_node f (suc i) nodes

-- The diagnostic of a node that a traversal did not mark, where its degree is not zero.
abbrev pub unmarked_node : (ℕ → Bool) → (ℕ → ℕ) → ℕ → FlowNode → List Diagnostic
unmarked_node marked degree i node =
    when (not (marked i) && (ltb 0 (degree i) && not (is_unsupported node.kind))) bpmn_structure
      node.id

-- What a traversal from `seeds` leaves out; `none` is a traversal that did not end.
unfoldable pub connected : FlowScope → List ℕ → (ℕ → List ℕ) → (ℕ → ℕ) → Option (List Diagnostic)
connected g seeds neighbors degree = elim (reach (length g.nodes) seeds neighbors) [
  | none ↦ none
  | some marked ↦ some (each_node (unmarked_node marked degree) 0 g.nodes)
]

unfoldable pub forward : FlowScope → List ℕ → Option (List Diagnostic)
forward g starts = if is_nil starts then some [] else connected g starts (succs g) (in_deg g)

unfoldable pub backward : FlowScope → String → List ℕ → Option (List Diagnostic)
backward g owner ends =
    if is_nil ends
    then some (error bpmn_structure owner ∷ [])
    else connected g ends (preds g) (out_deg g)

abbrev pub append_both :
    List Diagnostic → Option (List Diagnostic) → Option (List Diagnostic) → Option (List Diagnostic)
append_both ds (some es) (some fs) = some (ds ++ (es ++ fs))
append_both ds _ _ = none

unfoldable pub check : FlowScope → String → Option (List Diagnostic)
check g owner =
    let starts = of_kind is_start 0 g.nodes in
    append_both
      (unresolved g.nodes g.flows
        ++ (when (not (length starts == 1)) single_start_event owner
            ++ each_node
                (λ i node. cardinality (shape_of node.kind) (in_deg g i) (out_deg g i) node.id) 0
                g.nodes))
      (forward g starts) (backward g owner (of_kind is_end 0 g.nodes))
