-- ===== src/Lint/Structure/WellFormed.antt =====
-- What a scope promises that `check` has nothing to say of.
use rbpmn.Common.{
  ℕ, ◌≤◌, ◌<◌, ◌≡◌, refl, ap, String, Bool, true, false, not, ◌&&◌, Option, none, some, List, [],
  ◌∷◌, ◌++◌, length, arith, Among, ◌==◌, ltb, is_nil,
}
use rbpmn.Lint.Reach.Paths.{Reaches, reach-IsExact}
use rbpmn.Lint.Structure.{
  Diagnostic, error, bpmn_structure, single_start_event, is_start, is_end, is_unsupported, when,
  shape_of, unresolved, of_kind, each_node, unmarked_node, connected, forward, backward,
  append_both, check,
}
use rbpmn.Lint.Structure.Graph.{
  FlowNode, SequenceFlow, FlowScope, Edge, endpoints, in_deg, out_deg, succs, preds,
}
use rbpmn.Lint.Structure.Bounds.{some_inj, succs-lt, preds-lt}
use rbpmn.Lint.Structure.Links.{Link}
use rbpmn.Lint.Structure.Linked.{Leads, Reaches-Leads, succs-Link, preds-Link}
use rbpmn.Lint.Structure.Silent.{
  ++-nil, node_at, HasFlows, when-nil, cardinality-HasFlows, unresolved-nil, each_node-nil_zero,
}

pub record IsWellFormed (g : FlowScope) : Type 0 where
  pub resolves : (f : SequenceFlow) → Among f g.flows → (e : Edge) × (endpoints g.nodes f ≡ some e)
  pub one_start : (s : ℕ) × (of_kind is_start 0 g.nodes ≡ s ∷ [])
  pub some_end : is_nil (of_kind is_end 0 g.nodes) ≡ false
  pub flows :
      (i : ℕ) (node : FlowNode)
      → node_at i g.nodes ≡ some node
      → HasFlows (shape_of node.kind) (in_deg g i) (out_deg g i)
  pub from_start :
      (i : ℕ) (node : FlowNode)
      → node_at i g.nodes ≡ some node
      → is_unsupported node.kind ≡ false
      → 1 ≤ in_deg g i
      → Leads (Link g) (of_kind is_start 0 g.nodes) i
  pub to_end :
      (i : ℕ) (node : FlowNode)
      → node_at i g.nodes ≡ some node
      → is_unsupported node.kind ≡ false
      → 1 ≤ out_deg g i
      → Leads (λ w v. Link g v w) (of_kind is_end 0 g.nodes) i

ltb-true : (d : ℕ) → 1 ≤ d → ltb 0 d ≡ true
ltb-true d l = ground arith

marked_of : (m d u : Bool) → not m && (d && not u) ≡ false → d ≡ true → u ≡ false → m ≡ true
marked_of true d u h e k = refl
marked_of false true false h e k = cc
marked_of false true true h e k = cc
marked_of false false u h e k = cc

-- Where a traversal has nothing to report, it comes to every node that it is asked about.
connected-Reaches :
    (g : FlowScope) (seeds : List ℕ) (neighbors : ℕ → List ℕ) (degree : ℕ → ℕ)
    → ((v w : ℕ) → Among w (neighbors v) → w < length g.nodes)
    → connected g seeds neighbors degree ≡ some []
    → (i : ℕ) (node : FlowNode) → node_at i g.nodes ≡ some node
    → is_unsupported node.kind ≡ false
    → 1 ≤ degree i
    → Reaches neighbors seeds i
unfolding connected
connected-Reaches g seeds neighbors degree b h i node e u l =
    let (found, (ends, exact)) = reach-IsExact neighbors seeds (length g.nodes) b in
    let silent = some_inj (rw (ends, connected) at h) in
    let here = each_node-nil_zero (unmarked_node found degree) i g.nodes node silent e in
    let quiet =
      when-nil (not (found i) && (ltb 0 (degree i) && not (is_unsupported node.kind)))
        bpmn_structure node.id here in
    (exact i).0 (
      marked_of (found i) (ltb 0 (degree i)) (is_unsupported node.kind) quiet
        (ltb-true (degree i) l) u)

-- A traversal ends, whatever it has to report.
connected_total :
    (g : FlowScope) (seeds : List ℕ) (neighbors : ℕ → List ℕ) (degree : ℕ → ℕ)
    → ((v w : ℕ) → Among w (neighbors v) → w < length g.nodes)
    → (ds : List Diagnostic) × (connected g seeds neighbors degree ≡ some ds)
unfolding connected
connected_total g seeds neighbors degree b =
    let (found, (ends, _)) = reach-IsExact neighbors seeds (length g.nodes) b in
    (each_node (unmarked_node found degree) 0 g.nodes, rw (ends, connected) refl)

append_both-nil :
    (ds : List Diagnostic) (es fs : Option (List Diagnostic))
    → append_both ds es fs ≡ some []
    → (ds ≡ []) × ((es ≡ some []) × (fs ≡ some []))
append_both-nil ds none fs h = cc
append_both-nil ds (some es) none h = cc
append_both-nil ds (some es) (some fs) h =
    let (a, b) = ++-nil ds (es ++ fs) (some_inj h) in
    let (c, d) = ++-nil es fs b in (a, (ap some c, ap some d))

append_both_total :
    (ds : List Diagnostic) (es fs : Option (List Diagnostic)) (xs ys : List Diagnostic)
    → es ≡ some xs
    → fs ≡ some ys
    → (rs : List Diagnostic) × (append_both ds es fs ≡ some rs)
append_both_total ds es fs xs ys e f = (ds ++ (xs ++ ys), rw (e, f) refl)

one_of : (xs : List ℕ) → (length xs == 1) ≡ true → (x : ℕ) × (xs ≡ x ∷ [])
one_of [] h = cc
one_of (x ∷ []) h = (x, refl)
one_of (x ∷ y ∷ xs) h = absurd (ground (arith, h))

not-not : (b : Bool) → not b ≡ false → b ≡ true
not-not true h = refl
not-not false h = cc

forward_total :
    (g : FlowScope) (starts : List ℕ) → (ds : List Diagnostic) × (forward g starts ≡ some ds)
unfolding forward
forward_total g [] = ([], refl)
forward_total g (s ∷ starts) = connected_total g (s ∷ starts) (succs g) (in_deg g) (succs-lt g)

backward_total :
    (g : FlowScope) (owner : String) (ends : List ℕ)
    → (ds : List Diagnostic) × (backward g owner ends ≡ some ds)
unfolding backward
backward_total g owner [] = (error bpmn_structure owner ∷ [], refl)
backward_total g owner (e ∷ ends) = connected_total g (e ∷ ends) (preds g) (out_deg g) (preds-lt g)

forward-connected :
    (g : FlowScope) (s : ℕ) (starts : List ℕ)
    → starts ≡ s ∷ []
    → forward g starts ≡ some []
    → connected g starts (succs g) (in_deg g) ≡ some []
unfolding forward
forward-connected g s [] e h = cc
forward-connected g s (x ∷ starts) e h = h

backward-connected :
    (g : FlowScope) (owner : String) (ends : List ℕ)
    → backward g owner ends ≡ some []
    → (is_nil ends ≡ false) × (connected g ends (preds g) (out_deg g) ≡ some [])
unfolding backward
backward-connected g owner [] h = cc
backward-connected g owner (x ∷ ends) h = (refl, h)

-- The check of a scope ends with a list of diagnostics.
pub check_total :
    (g : FlowScope) (owner : String) → (ds : List Diagnostic) × (check g owner ≡ some ds)
unfolding check
check_total g owner =
    let (es, e) = forward_total g (of_kind is_start 0 g.nodes) in
    let (fs, f) = backward_total g owner (of_kind is_end 0 g.nodes) in
    append_both_total _ (forward g (of_kind is_start 0 g.nodes))
      (backward g owner (of_kind is_end 0 g.nodes)) es fs e f

-- A scope that the check has no diagnostic for is well-formed: its flows resolve, it has one start
-- and an end, every node has the flows that its kind calls for, and every supported node that a
-- flow leads to is reached from the start, and every one that a flow leads out of reaches an end.
pub check-IsWellFormed : (g : FlowScope) (owner : String) → check g owner ≡ some [] → IsWellFormed g
unfolding check
check-IsWellFormed g owner h =
    let starts = of_kind is_start 0 g.nodes in
    let (local, (ahead, behind)) =
      append_both-nil _ (forward g starts) (backward g owner (of_kind is_end 0 g.nodes)) h in
    let (ends_resolve, rest) = ++-nil (unresolved g.nodes g.flows) _ local in
    let (single, counts) =
      ++-nil (when (not (length starts == 1)) single_start_event owner) _ rest in
    let one =
      one_of starts (not-not (length starts == 1) (when-nil _ single_start_event owner single)) in
    let out = backward-connected g owner (of_kind is_end 0 g.nodes) behind in
    record {
      resolves = λ f a. unresolved-nil g.nodes g.flows f ends_resolve a;
      one_start = one;
      some_end = out.0;
      flows = λ i node e.
          cardinality-HasFlows (shape_of node.kind) (in_deg g i) (out_deg g i) node.id
            (each_node-nil_zero _ i g.nodes node counts e);
      from_start = λ i node e u l. Reaches-Leads (succs g) (Link g) starts (succs-Link g) (
          connected-Reaches g starts (succs g) (in_deg g) (succs-lt g)
            (forward-connected g one.0 starts one.1 ahead) i node e u l);
      to_end = λ i node e u l.
          Reaches-Leads (preds g) (λ w v. Link g v w) (of_kind is_end 0 g.nodes) (preds-Link g)
            (connected-Reaches g (of_kind is_end 0 g.nodes) (preds g) (out_deg g) (preds-lt g) out.1
              i node e u l);
    }
