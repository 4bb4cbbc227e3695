-- ===== src/Lint/Structure/Links.antt =====
-- The neighbours of a node against a relation: the flows of the scope and the boundaries of its
-- activities, by the ids that they name (lint/structure.rs).
use mathlib.Core.Path.{subst}
use rbpmn.Common.{
  ℕ, suc, ◌+◌, ◌≡◌, ◌≢◌, ◌↔◌, inl, inr, refl, ap, ◌∙◌, String, none, some, List, [], ◌∷◌, arith,
  Among, Bool-cases, Option-cases, same_text, same_text_iff,
}
use rbpmn.Lint.Structure.Graph.{FlowNode, SequenceFlow, FlowScope, index_of, attached_to}
use rbpmn.Lint.Structure.Bounds.{some_inj}
use rbpmn.Lint.Structure.Silent.{node_at}

abbrev pub NoneNamed : String → List FlowNode → Type 0
NoneNamed id [] = Unit
NoneNamed id (node ∷ nodes) = (node.id ≢ id) × NoneNamed id nodes

-- The last node of an id, by its index.
pub data LastNamed (id : String) : List FlowNode → ℕ → Type 0 where
  last_here :
      {node : FlowNode} {nodes : List FlowNode}
      → node.id ≡ id
      → NoneNamed id nodes
      → LastNamed id (node ∷ nodes) 0
  last_later :
      {node : FlowNode} {nodes : List FlowNode} {i : ℕ}
      → LastNamed id nodes i
      → LastNamed id (node ∷ nodes) (suc i)

-- A flow leads from a node to another, or the other is a boundary that is attached to the node.
pub data Link (g : FlowScope) (v w : ℕ) : Type 0 where
  flows_to :
      {f : SequenceFlow}
      → Among f g.flows
      → LastNamed f.source g.nodes v
      → LastNamed f.target g.nodes w
      → Link g v w
  hosts :
      {node : FlowNode} {host : String}
      → node_at w g.nodes ≡ some node
      → attached_to node.kind ≡ some host
      → LastNamed host g.nodes v
      → Link g v w

index_of-NoneNamed :
    (id : String) (i : ℕ) (nodes : List FlowNode) → index_of id i nodes ≡ none → NoneNamed id nodes
unfolding index_of
index_of-NoneNamed id i [] h = tt
index_of-NoneNamed id i (node ∷ nodes) h = elim (Option-cases (index_of id (suc i) nodes)) [
  | inr (j, e) ↦ cc (rw (e, index_of) at h)
  | inl e ↦ elim (Bool-cases (same_text node.id id)) [
    | inl q ↦ cc (rw (e, q, index_of) at h)
    | inr q ↦
        (λ s. let t = (same_text_iff node.id id).1 s in cc, index_of-NoneNamed id (suc i) nodes e)
  ]
]

NoneNamed-index_of :
    (id : String) (i : ℕ) (nodes : List FlowNode) → NoneNamed id nodes → index_of id i nodes ≡ none
unfolding index_of
NoneNamed-index_of id i [] n = refl
NoneNamed-index_of id i (node ∷ nodes) (d, n) = elim (Bool-cases (same_text node.id id)) [
  | inl q ↦ absurd (d ((same_text_iff node.id id).0 q))
  | inr q ↦ rw (NoneNamed-index_of id (suc i) nodes n, q) refl
]

index_of-LastNamed :
    (id : String) (i j : ℕ) (nodes : List FlowNode)
    → index_of id i nodes ≡ some j
    → (k : ℕ) × ((j ≡ i + k) × LastNamed id nodes k)
unfolding index_of
index_of-LastNamed id i j [] h = cc
index_of-LastNamed id i j (node ∷ nodes) h = elim (Option-cases (index_of id (suc i) nodes)) [
  | inr (m, e) ↦
      let (k, (s, l)) = index_of-LastNamed id (suc i) m nodes e in
      let same : m ≡ j = some_inj (rw (e, index_of) at h) in
      (suc k, (omega (arith, s, same), last_later l))
  | inl e ↦ elim (Bool-cases (same_text node.id id)) [
    | inr q ↦ cc (rw (e, q, index_of) at h)
    | inl q ↦
        let same : i ≡ j = some_inj (rw (e, q, index_of) at h) in
        (
          0,
          (
            omega (arith, same),
            last_here ((same_text_iff node.id id).0 q) (index_of-NoneNamed id (suc i) nodes e),
          ),
        )
  ]
]

LastNamed-index_of :
    (id : String) (i : ℕ) {k : ℕ} {nodes : List FlowNode}
    → LastNamed id nodes k
    → index_of id i nodes ≡ some (i + k)
unfolding index_of
LastNamed-index_of id i (last_here {node} {nodes} e n) =
    rw (NoneNamed-index_of id (suc i) nodes n, (same_text_iff node.id id).1 e)
      (ap some (omega arith))
LastNamed-index_of id i (last_later {i = k} l) =
    rw (LastNamed-index_of id (suc i) l) (ap some (omega arith))

-- The index of an id is that of the last node that has it.
pub index_of_iff :
    (id : String) (nodes : List FlowNode) (j : ℕ)
    → (index_of id 0 nodes ≡ some j) ↔ LastNamed id nodes j
index_of_iff id nodes j = (
  λ h.
      let (k, (s, l)) = index_of-LastNamed id 0 j nodes h in
      subst (LastNamed id nodes) (omega (arith, s)) l,
  λ l. LastNamed-index_of id 0 l ∙ ap some (omega arith),
)
