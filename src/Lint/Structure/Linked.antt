-- ===== src/Lint/Structure/Linked.antt =====
-- What a traversal along `succs` or `preds` comes to, by the links of the scope.
use mathlib.Core.Path.{subst}
use rbpmn.Common.{
  ℕ, ◌≡◌, ◌↔◌, inl, inr, refl, ap, ◌∙◌, some, List, map, arith, Among, Among-append, ◌==◌, ==_iff,
  Option-cases, String,
}
use rbpmn.Lint.Reach.Paths.{Reaches, seed, next}
use rbpmn.Lint.Structure.Graph.{
  FlowNode, SequenceFlow, FlowScope, Edge, edges, attached_to, host_of, boundaries_from, hosts_from,
  flow_in, flow_out, succs, preds,
}
use rbpmn.Lint.Structure.Silent.{node_at}
use rbpmn.Lint.Structure.Links.{LastNamed, Link, flows_to, hosts, index_of_iff}
use rbpmn.Lint.Structure.Neighbors.{
  Among-after, Among-split, Among-image, Among-edges, endpoints_iff, Attached,
  boundaries_from-Attached, Attached-boundaries_from, hosts_from-Attached, Attached-hosts_from,
}

-- The host of a boundary is the last node of the id that it names.
host_of_iff :
    (nodes : List FlowNode) (node : FlowNode) (v : ℕ)
    → (host_of nodes node ≡ some v)
      ↔ ((host : String) × ((attached_to node.kind ≡ some host) × LastNamed host nodes v))
unfolding host_of
host_of_iff nodes node v = (
  λ h. elim (Option-cases (attached_to node.kind)) [
    | inl e ↦ cc (rw (e, host_of) at h)
    | inr (host, e) ↦ (host, (e, (index_of_iff host nodes v).0 (rw (e, host_of) at h)))
  ],
  λ (host, (e, l)). rw (e, host_of) ((index_of_iff host nodes v).1 l),
)

module _ (g : FlowScope) where
  -- An edge that the flows of the scope give, as a link.
  edge-Link : (e : Edge) → Among e (edges g.nodes g.flows) → Link g e.source e.target
  edge-Link e m =
      let (f, (n, h)) = (Among-edges g.nodes g.flows e).0 m in
      let (s, t) = (endpoints_iff g.nodes f e).0 h in
      flows_to n ((index_of_iff f.source g.nodes e.source).0 s)
        ((index_of_iff f.target g.nodes e.target).0 t)

  Link-edge :
      (f : SequenceFlow) (v w : ℕ)
      → Among f g.flows
      → LastNamed f.source g.nodes v
      → LastNamed f.target g.nodes w
      → Among (record { source = v; target = w }) (edges g.nodes g.flows)
  Link-edge f v w m s t = (Among-edges g.nodes g.flows (record { source = v; target = w })).1 (
    f,
    (
      m,
      (endpoints_iff g.nodes f (record { source = v; target = w })).1
          ((index_of_iff f.source g.nodes v).1 s, (index_of_iff f.target g.nodes w).1 t),
    ),
  )

  Attached-Link : (v w : ℕ) → Attached g.nodes v 0 w g.nodes → Link g v w
  unfolding Attached
  Attached-Link v w (k, node, (e, (a, h))) =
      let (host, (t, l)) = (host_of_iff g.nodes node v).0 h in
      let same : w ≡ k = omega (arith, e) in hosts (ap (λ x. node_at x g.nodes) same ∙ a) t l

  pub succs-Link : (v w : ℕ) → Among w (succs g v) ↔ Link g v w
  unfolding succs flow_out
  succs-Link v w = (found, linked)
    where
      found : Among w (succs g v) → Link g v w
      found h = elim (Among-split (map (λ e. e.target) (flow_out g v)) _ h) [
        | inr m ↦ Attached-Link v w (boundaries_from-Attached g.nodes v 0 w g.nodes m)
        | inl m ↦
            let (e, (n, (s, t))) =
              (Among-image (λ x. x.source == v) (λ x. x.target) (edges g.nodes g.flows) w).0 m in
            subst (λ x. Link g x w) ((==_iff e.source v).0 s)
              (subst (λ x. Link g e.source x) t (edge-Link e n))
      ]

      linked : Link g v w → Among w (succs g v)
      linked (flows_to {f} m s t) = Among-append _ (
          (Among-image (λ x. x.source == v) (λ x. x.target) (edges g.nodes g.flows) w).1 (
            record { source = v; target = w },
            (Link-edge f v w m s t, ((==_iff v v).1 refl, refl)),
          ))
      linked (hosts {node} {host} a t l) = Among-after (map (λ e. e.target) (flow_out g v)) (
          subst (λ x. Among x (boundaries_from g.nodes v 0 g.nodes)) (omega arith)
            (Attached-boundaries_from g.nodes v 0 w node g.nodes a
              ((host_of_iff g.nodes node v).1 (host, (t, l)))))

  pub preds-Link : (w v : ℕ) → Among v (preds g w) ↔ Link g v w
  unfolding preds flow_in
  preds-Link w v = (found, linked)
    where
      found : Among v (preds g w) → Link g v w
      found h = elim (Among-split (map (λ e. e.source) (flow_in g w)) _ h) [
        | inr m ↦ Attached-Link v w (hosts_from-Attached g.nodes w 0 v g.nodes m)
        | inl m ↦
            let (e, (n, (t, s))) =
              (Among-image (λ x. x.target == w) (λ x. x.source) (edges g.nodes g.flows) v).0 m in
            subst (λ x. Link g v x) ((==_iff e.target w).0 t)
              (subst (λ x. Link g x e.target) s (edge-Link e n))
      ]

      linked : Link g v w → Among v (preds g w)
      linked (flows_to {f} m s t) = Among-append _ (
          (Among-image (λ x. x.target == w) (λ x. x.source) (edges g.nodes g.flows) v).1 (
            record { source = v; target = w },
            (Link-edge f v w m s t, ((==_iff w w).1 refl, refl)),
          ))
      linked (hosts {node} {host} a t l) = Among-after (map (λ e. e.source) (flow_in g w)) (
          subst (λ x. Among v (hosts_from g.nodes x 0 g.nodes)) (omega arith)
            (Attached-hosts_from g.nodes v 0 w node g.nodes a
              ((host_of_iff g.nodes node v).1 (host, (t, l)))))

-- The nodes that steps of a relation lead to from a seed.
pub data Leads (R : ℕ → ℕ → Type 0) (seeds : List ℕ) : ℕ → Type 0 where
  at_seed : {s : ℕ} → Among s seeds → Leads R seeds s
  by_step : {v w : ℕ} → Leads R seeds v → R v w → Leads R seeds w

module _ (neighbors : ℕ → List ℕ) (R : ℕ → ℕ → Type 0) (seeds : List ℕ)
    (same : (v w : ℕ) → Among w (neighbors v) ↔ R v w) where
  pub Reaches-Leads : {v : ℕ} → Reaches neighbors seeds v → Leads R seeds v
  Reaches-Leads (seed m) = at_seed m
  Reaches-Leads (next {v} {w} r m) = by_step (Reaches-Leads r) ((same v w).0 m)

  pub Leads-Reaches : {v : ℕ} → Leads R seeds v → Reaches neighbors seeds v
  Leads-Reaches (at_seed m) = seed m
  Leads-Reaches (by_step {v} {w} r m) = next (Leads-Reaches r) ((same v w).1 m)
