-- ===== src/Lint/Structure/Neighbors.antt =====
-- `succs` and `preds` of lint/structure.rs are the links of the scope.
use mathlib.Core.Path.{subst}
use rbpmn.Common.{
  nowhere, ℕ, zero, suc, ◌+◌, ◌≡◌, ◌↔◌, ◌⊎◌, inl, inr, refl, sym, ap, ◌∙◌, Bool, true, false,
  Option, none, some, List, [], ◌∷◌, ◌++◌, map, filter, arith, Among, first, later, Among-cons,
  Bool-cases, Option-cases, ◌==◌, ==_iff,
}
use rbpmn.Lint.Structure.Graph.{
  FlowNode, SequenceFlow, index_of, Edge, edge_of, endpoints, edges, host_of, boundaries_from,
  hosts_from,
}
use rbpmn.Lint.Structure.Bounds.{some_inj}
use rbpmn.Lint.Structure.Silent.{node_at}

pub Among-after : {A : Type 0} {x : A} (xs : List A) {ys : List A} → Among x ys → Among x (xs ++ ys)
Among-after [] h = h
Among-after (y ∷ xs) h = later (Among-after xs h)

pub Among-split :
    {A : Type 0} {x : A} (xs ys : List A) → Among x (xs ++ ys) → Among x xs ⊎ Among x ys
Among-split [] ys h = inr h
Among-split (y ∷ xs) ys h = elim (Among-cons h) [
  | inl e ↦ inl (subst (λ z. Among z (y ∷ xs)) (sym e) first)
  | inr n ↦ elim (Among-split xs ys n) [ inl m ↦ inl (later m) | inr m ↦ inr m ]
]

-- A filter, and the image of what it keeps.
pub Among-image :
    {A B : Type 0} (p : A → Bool) (f : A → B) (xs : List A) (y : B)
    → Among y (map f (filter p xs)) ↔ ((x : A) × (Among x xs × ((p x ≡ true) × (f x ≡ y))))
Among-image {A} {B} p f xs y =
    (found xs, λ (x, (m, (t, e))). subst (λ z. Among z (map f (filter p xs))) e (kept x xs m t))
  where
    found :
        (xs : List A)
        → Among y (map f (filter p xs))
        → (x : A) × (Among x xs × ((p x ≡ true) × (f x ≡ y)))
    found [] h = nowhere h
    found (x ∷ xs) h = elim (Bool-cases (p x)) [
      | inr e ↦ let (z, (m, r)) = found xs (rw e at h) in (z, (later m, r))
      | inl e ↦ elim (Among-cons (rw e at h)) [
        | inl q ↦ (x, (first, (e, sym q)))
        | inr n ↦ let (z, (m, r)) = found xs n in (z, (later m, r))
      ]
    ]

    kept : (x : A) (xs : List A) → Among x xs → p x ≡ true → Among (f x) (map f (filter p xs))
    kept x [] m t = nowhere m
    kept x (z ∷ xs) m t = elim (Among-cons m) [
      | inl e ↦ subst (λ w. Among (f x) (map f (filter p (w ∷ xs)))) e (rw t first)
      | inr n ↦ elim (Bool-cases (p z)) [
        | inl e ↦ rw e (later (kept x xs n t))
        | inr e ↦ rw e (kept x xs n t)
      ]
    ]

-- The edges are those of the flows that resolve.
pub Among-edges :
    (nodes : List FlowNode) (fs : List SequenceFlow) (e : Edge)
    → Among e (edges nodes fs) ↔ ((f : SequenceFlow) × (Among f fs × (endpoints nodes f ≡ some e)))
unfolding edges
Among-edges nodes fs e = (found fs, λ (f, (m, h)). kept f fs m h)
  where
    found :
        (fs : List SequenceFlow)
        → Among e (edges nodes fs)
        → (f : SequenceFlow) × (Among f fs × (endpoints nodes f ≡ some e))
    found [] h = nowhere h
    found (f ∷ fs) h = elim (Option-cases (endpoints nodes f)) [
      | inl q ↦ let (g, (m, r)) = found fs (rw (q, edges) at h) in (g, (later m, r))
      | inr (d, q) ↦ elim (Among-cons (rw (q, edges) at h)) [
        | inl s ↦ (f, (first, q ∙ ap some (sym s)))
        | inr n ↦ let (g, (m, r)) = found fs n in (g, (later m, r))
      ]
    ]

    kept :
        (f : SequenceFlow) (fs : List SequenceFlow)
        → Among f fs
        → endpoints nodes f ≡ some e
        → Among e (edges nodes fs)
    kept f [] m h = nowhere m
    kept f (g ∷ fs) m h = elim (Among-cons m) [
      | inl q ↦ subst (λ x. Among e (edges nodes (x ∷ fs))) q (rw (h, edges) first)
      | inr n ↦ elim (Option-cases (endpoints nodes g)) [
        | inl q ↦ rw (q, edges) (kept f fs n h)
        | inr (d, q) ↦ rw (q, edges) (later (kept f fs n h))
      ]
    ]

-- A flow that resolves, by the indices of the nodes that it names.
pub endpoints_iff :
    (nodes : List FlowNode) (f : SequenceFlow) (e : Edge)
    → (endpoints nodes f ≡ some e)
      ↔ ((index_of f.source 0 nodes ≡ some e.source) × (index_of f.target 0 nodes ≡ some e.target))
unfolding endpoints
endpoints_iff nodes f e =
    (edge_parts (index_of f.source 0 nodes) (index_of f.target 0 nodes), λ (s, t). rw (s, t) refl)
  where
    edge_parts : (s t : Option ℕ) → edge_of s t ≡ some e → (s ≡ some e.source) × (t ≡ some e.target)
    edge_parts none t h = cc
    edge_parts (some s) none h = cc
    edge_parts (some s) (some t) h =
        let same = some_inj h in (ap (λ x. some x.source) same, ap (λ x. some x.target) same)

module _ (nodes : List FlowNode) where
  -- A node at the index `w`, counted from `i`, that is attached to the node at `host`.
  unfoldable pub Attached : ℕ → ℕ → ℕ → List FlowNode → Type 0
  Attached host i w rest =
      (k : ℕ) × (node : FlowNode) × ((w ≡ i + k)
        × ((node_at k rest ≡ some node) × (host_of nodes node ≡ some host)))

  Attached-later :
      (host i w : ℕ) (node : FlowNode) (rest : List FlowNode)
      → Attached host (suc i) w rest
      → Attached host i w (node ∷ rest)
  unfolding Attached
  Attached-later host i w node rest (k, n, (e, (a, h))) = (suc k, n, (omega (arith, e), (a, h)))

  pub boundaries_from-Attached :
      (host i w : ℕ) (rest : List FlowNode)
      → Among w (boundaries_from nodes host i rest)
      → Attached host i w rest
  unfolding boundaries_from Attached
  boundaries_from-Attached host i w [] h = nowhere h
  boundaries_from-Attached host i w (node ∷ rest) h = elim (Option-cases (host_of nodes node)) [
    | inl e ↦
        Attached-later host i w node rest
          (boundaries_from-Attached host (suc i) w rest (rw (e, boundaries_from) at h))
    | inr (j, e) ↦ elim (Bool-cases (j == host)) [
      | inr q ↦
          Attached-later host i w node rest
            (boundaries_from-Attached host (suc i) w rest (rw (e, q, boundaries_from) at h))
      | inl q ↦ elim (Among-cons (rw (e, q, boundaries_from) at h)) [
        | inl s ↦ (0, node, (omega (arith, s), (refl, e ∙ ap some ((==_iff j host).0 q))))
        | inr n ↦ Attached-later host i w node rest (boundaries_from-Attached host (suc i) w rest n)
      ]
    ]
  ]

  pub Attached-boundaries_from :
      (host i k : ℕ) (node : FlowNode) (rest : List FlowNode)
      → node_at k rest ≡ some node
      → host_of nodes node ≡ some host
      → Among (i + k) (boundaries_from nodes host i rest)
  unfolding boundaries_from
  Attached-boundaries_from host i k node [] a h = cc
  Attached-boundaries_from host i zero node (x ∷ rest) a h =
      let same : x ≡ node = some_inj a in
      rw (ap (host_of nodes) same ∙ h, (==_iff host host).1 refl, boundaries_from)
        (subst (λ m. Among m (i ∷ boundaries_from nodes host (suc i) rest)) (omega arith) first)
  Attached-boundaries_from host i (suc k) node (x ∷ rest) a h =
      let more =
        subst (λ m. Among m (boundaries_from nodes host (suc i) rest)) (omega arith)
          (Attached-boundaries_from host (suc i) k node rest a h) in
      elim (Option-cases (host_of nodes x)) [
        | inl e ↦ rw (e, boundaries_from) more
        | inr (j, e) ↦ elim (Bool-cases (j == host)) [
          | inr q ↦ rw (e, q, boundaries_from) more
          | inl q ↦ rw (e, q, boundaries_from) (later more)
        ]
      ]

  -- The host of the node at an index, if it has one.
  pub hosts_from-Attached :
      (v i w : ℕ) (rest : List FlowNode) → Among w (hosts_from nodes v i rest) → Attached w i v rest
  unfolding hosts_from Attached
  hosts_from-Attached v i w [] h = nowhere h
  hosts_from-Attached v i w (node ∷ rest) h = elim (Bool-cases (i == v)) [
    | inr q ↦
        Attached-later w i v node rest
          (hosts_from-Attached v (suc i) w rest (rw (q, hosts_from) at h))
    | inl q ↦ elim (Option-cases (host_of nodes node)) [
      | inl e ↦ nowhere (rw (q, e, hosts_from) at h)
      | inr (j, e) ↦ elim (Among-cons (rw (q, e, hosts_from) at h)) [
        | inl s ↦
            let same = (==_iff i v).0 q in
            (0, node, (omega (arith, same), (refl, e ∙ ap some (sym s))))
        | inr n ↦ nowhere n
      ]
    ]
  ]

  pub Attached-hosts_from :
      (w i k : ℕ) (node : FlowNode) (rest : List FlowNode)
      → node_at k rest ≡ some node
      → host_of nodes node ≡ some w
      → Among w (hosts_from nodes (i + k) i rest)
  unfolding hosts_from
  Attached-hosts_from w i k node [] a h = cc
  Attached-hosts_from w i zero node (x ∷ rest) a h =
      let same : x ≡ node = some_inj a in
      rw ((==_iff i (i + 0)).1 (omega arith), ap (host_of nodes) same ∙ h, hosts_from) first
  Attached-hosts_from w i (suc k) node (x ∷ rest) a h =
      let apart : (i == i + suc k) ≡ false = ground arith in
      let more =
        subst (λ m. Among w (hosts_from nodes m (suc i) rest)) (omega arith)
          (Attached-hosts_from w (suc i) k node rest a h) in
      rw (apart, hosts_from) more
