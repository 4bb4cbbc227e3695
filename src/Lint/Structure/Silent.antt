-- ===== src/Lint/Structure/Silent.antt =====
-- What a rule of `check` that has nothing to say shows of a node or a flow.
use mathlib.Core.Path.{subst}
use rbpmn.Common.{
  ℕ, zero, suc, ◌+◌, ◌≤◌, ◌≡◌, ◌⊎◌, inl, inr, refl, String, Bool, true, false, ◌&&◌, Option, none,
  some, List, [], ◌∷◌, ◌++◌, arith, Among, first, later, nowhere, Bool-cases, ◌==◌, ltb,
}
use rbpmn.Lint.Structure.{
  no_implicit_split, no_mixed_gateway, Rule, Diagnostic, bpmn_structure, when, Shape, ignored,
  source_only, sink_only, gateway, activity, one_outgoing, cardinality, is_unresolved, unresolved,
  each_node,
}
use rbpmn.Lint.Structure.Graph.{FlowNode, SequenceFlow, Edge, endpoints}
use rbpmn.Lint.Structure.Bounds.{some_inj}

abbrev pub node_at : ℕ → List FlowNode → Option FlowNode
node_at i [] = none
node_at zero (node ∷ nodes) = some node
node_at (suc i) (node ∷ nodes) = node_at i nodes

-- The flows into and out of a node of each class of kinds.
abbrev pub HasFlows : Shape → ℕ → ℕ → Type 0
HasFlows ignored ins outs = Unit {0}
HasFlows source_only ins outs = (ins ≡ 0) × (outs ≡ 1)
HasFlows sink_only ins outs = (1 ≤ ins) × (outs ≡ 0)
HasFlows gateway ins outs = (1 ≤ ins) × (1 ≤ outs) × ((ins ≤ 1) ⊎ (outs ≤ 1))
HasFlows activity ins outs = (1 ≤ ins) × (outs ≡ 1)

pub ++-nil : {A : Type 0} (xs ys : List A) → xs ++ ys ≡ [] → (xs ≡ []) × (ys ≡ [])
++-nil [] ys h = (refl, h)
++-nil (x ∷ xs) ys h = cc

pub when-nil : (b : Bool) (r : Rule) (id : String) → when b r id ≡ [] → b ≡ false
when-nil false r id h = refl
when-nil true r id h = cc

pub split_or_join : (ins outs : ℕ) → ltb 1 ins && ltb 1 outs ≡ false → (ins ≤ 1) ⊎ (outs ≤ 1)
split_or_join ins outs h = elim (Bool-cases (ltb 1 ins)) [
  | inr e ↦ inl (ground (arith, e))
  | inl e ↦ let few = rw e at h in inr (ground (arith, few))
]

pub one_outgoing-nil : (outs : ℕ) (id : String) → one_outgoing outs id ≡ [] → outs ≡ 1
one_outgoing-nil outs id h = elim (Bool-cases (outs == 0)) [
  | inl e ↦ cc (rw e at h)
  | inr e ↦
      let few = when-nil (ltb 1 outs) no_implicit_split id (rw e at h) in ground (arith, e, few)
]

pub cardinality-HasFlows :
    (k : Shape) (ins outs : ℕ) (id : String) → cardinality k ins outs id ≡ [] → HasFlows k ins outs
unfolding cardinality
cardinality-HasFlows ignored ins outs id h = tt
cardinality-HasFlows source_only ins outs id h =
    let (a, b) = ++-nil (when (ltb 0 ins) bpmn_structure id) _ h in
    let none_in = when-nil (ltb 0 ins) bpmn_structure id a in
    (ground (arith, none_in), one_outgoing-nil outs id b)
cardinality-HasFlows sink_only ins outs id h =
    let (a, b) = ++-nil (when (ltb 0 outs) bpmn_structure id) _ h in
    let none_out = when-nil (ltb 0 outs) bpmn_structure id a in
    let some_in = when-nil (ins == 0) bpmn_structure id b in
    (ground (arith, some_in), ground (arith, none_out))
cardinality-HasFlows gateway ins outs id h =
    let (a, b) = ++-nil (when (ins == 0) bpmn_structure id) _ h in
    let (c, d) = ++-nil (when (outs == 0) bpmn_structure id) _ b in
    let some_in = when-nil (ins == 0) bpmn_structure id a in
    let some_out = when-nil (outs == 0) bpmn_structure id c in
    let pure = when-nil (ltb 1 ins && ltb 1 outs) no_mixed_gateway id d in
    (ground (arith, some_in), ground (arith, some_out), split_or_join ins outs pure)
cardinality-HasFlows activity ins outs id h =
    let (a, b) = ++-nil (when (ins == 0) bpmn_structure id) _ h in
    let some_in = when-nil (ins == 0) bpmn_structure id a in
    (ground (arith, some_in), one_outgoing-nil outs id b)

pub unresolved-nil :
    (nodes : List FlowNode) (flows : List SequenceFlow) (f : SequenceFlow)
    → unresolved nodes flows ≡ []
    → Among f flows
    → (e : Edge) × (endpoints nodes f ≡ some e)
unfolding unresolved
unresolved-nil nodes [] f h a = nowhere a
unresolved-nil nodes (f ∷ flows) _ h first =
    let (none_here, _) =
      ++-nil (when (is_unresolved (endpoints nodes f)) bpmn_structure f.id) _ h in
    resolved_of (endpoints nodes f) (when-nil _ bpmn_structure f.id none_here)
  where
    resolved_of : (o : Option Edge) → is_unresolved o ≡ false → (e : Edge) × (o ≡ some e)
    resolved_of none q = cc
    resolved_of (some e) q = (e, refl)
unresolved-nil nodes (g ∷ flows) f h (later a) =
    let (_, rest) = ++-nil (when (is_unresolved (endpoints nodes g)) bpmn_structure g.id) _ h in
    unresolved-nil nodes flows f rest a

pub each_node-nil :
    (f : ℕ → FlowNode → List Diagnostic) (i j : ℕ) (nodes : List FlowNode) (node : FlowNode)
    → each_node f i nodes ≡ []
    → node_at j nodes ≡ some node
    → f (i + j) node ≡ []
unfolding each_node
each_node-nil f i j [] node h e = cc
each_node-nil f i zero (x ∷ nodes) node h e =
    let (here, _) = ++-nil (f i x) _ h in
    subst (λ k. f k node ≡ []) (omega arith) (subst (λ y. f i y ≡ []) (some_inj e) here)
each_node-nil f i (suc j) (x ∷ nodes) node h e =
    let (_, rest) = ++-nil (f i x) _ h in
    subst (λ k. f k node ≡ []) (omega arith) (each_node-nil f (suc i) j nodes node rest e)

pub each_node-nil_zero :
    (f : ℕ → FlowNode → List Diagnostic) (j : ℕ) (nodes : List FlowNode) (node : FlowNode)
    → each_node f 0 nodes ≡ []
    → node_at j nodes ≡ some node
    → f j node ≡ []
each_node-nil_zero f j nodes node h e =
    subst (λ k. f k node ≡ []) (omega arith) (each_node-nil f 0 j nodes node h e)
