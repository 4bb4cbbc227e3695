-- ===== src/Lint/Structure/Bounds.antt =====
-- The neighbours of a node are indices of nodes.
use mathlib.Core.Path.{subst}
use rbpmn.Common.{
  nowhere, ℕ, suc, ◌+◌, ◌<◌, ◌≡◌, ◌⊎◌, inl, inr, refl, String, Bool, Option, none, some, List, [],
  ◌∷◌, ◌++◌, map, filter, length, arith, Among, first, later, Bool-cases, Option-cases, ◌==◌,
  same_text,
}
use rbpmn.Lint.Structure.Graph.{
  FlowNode, SequenceFlow, FlowScope, index_of, Edge, edge_of, endpoints, edges, attached_to,
  host_of, boundaries_from, hosts_from, flow_in, flow_out, succs, preds,
}

pub some_inj : {A : Type 0} {x y : A} → some x ≡ some y → x ≡ y
some_inj h = cc

module _ {A : Type 0} where
  Among-filter : (p : A → Bool) (x : A) (xs : List A) → Among x (filter p xs) → Among x xs
  Among-filter p x [] a = a
  Among-filter p x (y ∷ xs) a = elim (Bool-cases (p y)) [
    | inl e ↦ kept x y (filter p xs) xs (λ b. Among-filter p x xs b) (rw e at a)
    | inr e ↦ later (Among-filter p x xs (rw e at a))
  ]
    where
      kept :
          (x y : A) (ys xs : List A)
          → (Among x ys → Among x xs)
          → Among x (y ∷ ys)
          → Among x (y ∷ xs)
      kept _ y ys xs f first = first
      kept x y ys xs f (later b) = later (f b)

  Among-++ : (x : A) (xs ys : List A) → Among x (xs ++ ys) → Among x xs ⊎ Among x ys
  Among-++ x [] ys a = inr a
  Among-++ _ (y ∷ xs) ys first = inl first
  Among-++ x (y ∷ xs) ys (later a) = elim (Among-++ x xs ys a) [
    | inl b ↦ inl (later b)
    | inr b ↦ inr b
  ]

  -- A property of the image of every element holds of every element of the image.
  Among-map :
      {B : Type 0} (P : B → Type 0) (f : A → B) (xs : List A) (y : B)
      → ((x : A) → Among x xs → P (f x))
      → Among y (map f xs)
      → P y
  Among-map P f [] y h a = nowhere a
  Among-map P f (x ∷ xs) _ h first = h x first
  Among-map P f (x ∷ xs) y h (later a) = Among-map P f xs y (λ z b. h z (later b)) a

among_cons :
    {A : Type 0} (P : A → Type 0) (x y : A) (xs : List A)
    → P x
    → (Among y xs → P y)
    → Among y (x ∷ xs)
    → P y
among_cons P x _ xs p f first = p
among_cons P x y xs p f (later a) = f a

index_of-lt :
    (id : String) (i j : ℕ) (nodes : List FlowNode)
    → index_of id i nodes ≡ some j
    → j < i + length nodes
unfolding index_of
index_of-lt id i j [] h = cc
index_of-lt id i j (node ∷ nodes) h = elim (Option-cases (index_of id (suc i) nodes)) [
  | inr (k, e) ↦
      let same = some_inj (rw (e, index_of) at h) in
      let below = index_of-lt id (suc i) k nodes e in omega (arith, same, below)
  | inl e ↦ elim (Bool-cases (same_text node.id id)) [
    | inl t ↦ let same = some_inj (rw (e, t, index_of) at h) in omega (arith, same)
    | inr t ↦ cc (rw (e, t, index_of) at h)
  ]
]

-- Both ends are below `n`.
abbrev IsWithin : ℕ → Edge → Type 0
IsWithin n e = (e.source < n) × (e.target < n)

edge_of-IsWithin :
    (n : ℕ) (s t : Option ℕ) (e : Edge)
    → ((j : ℕ) → s ≡ some j → j < n)
    → ((j : ℕ) → t ≡ some j → j < n)
    → edge_of s t ≡ some e
    → IsWithin n e
edge_of-IsWithin n (some s) (some t) e f g h = subst (IsWithin n) (some_inj h) (f s refl, g t refl)
edge_of-IsWithin n none t e f g h = cc
edge_of-IsWithin n (some s) none e f g h = cc

endpoints-IsWithin :
    (nodes : List FlowNode) (f : SequenceFlow) (e : Edge)
    → endpoints nodes f ≡ some e
    → IsWithin (length nodes) e
unfolding endpoints
endpoints-IsWithin nodes f e h =
    edge_of-IsWithin (length nodes) (index_of f.source 0 nodes) (index_of f.target 0 nodes) e
      (λ j q. omega (arith, index_of-lt f.source 0 j nodes q))
      (λ j q. omega (arith, index_of-lt f.target 0 j nodes q)) h

edges-IsWithin :
    (nodes : List FlowNode) (flows : List SequenceFlow) (e : Edge)
    → Among e (edges nodes flows)
    → IsWithin (length nodes) e
unfolding edges
edges-IsWithin nodes [] e a = nowhere a
edges-IsWithin nodes (f ∷ flows) e a = elim (Option-cases (endpoints nodes f)) [
  | inl q ↦ edges-IsWithin nodes flows e (rw (q, edges) at a)
  | inr (d, q) ↦
      among_cons (IsWithin (length nodes)) d e (edges nodes flows) (endpoints-IsWithin nodes f d q)
        (λ b. edges-IsWithin nodes flows e b) (rw (q, edges) at a)
]

boundaries_from-lt :
    (nodes : List FlowNode) (host i w : ℕ) (rest : List FlowNode)
    → Among w (boundaries_from nodes host i rest)
    → w < i + length rest
unfolding boundaries_from
boundaries_from-lt nodes host i w [] a = nowhere a
boundaries_from-lt nodes host i w (node ∷ rest) a = elim (Option-cases (host_of nodes node)) [
  | inl q ↦
      omega (arith, boundaries_from-lt nodes host (suc i) w rest (rw (q, boundaries_from) at a))
  | inr (h, q) ↦ elim (Bool-cases (h == host)) [
    | inr e ↦
        omega
          (arith, boundaries_from-lt nodes host (suc i) w rest (rw (q, e, boundaries_from) at a))
    | inl e ↦
        among_cons (λ x. x < i + suc (length rest)) i w (boundaries_from nodes host (suc i) rest)
          (omega arith) (λ b. omega (arith, boundaries_from-lt nodes host (suc i) w rest b))
          (rw (q, e, boundaries_from) at a)
  ]
]

host_of-lt :
    (nodes : List FlowNode) (node : FlowNode) (h : ℕ)
    → host_of nodes node ≡ some h
    → h < length nodes
unfolding host_of
host_of-lt nodes node h e = elim (Option-cases (attached_to node.kind)) [
  | inl q ↦ cc (rw (q, host_of) at e)
  | inr (id, q) ↦ omega (arith, index_of-lt id 0 h nodes (rw (q, host_of) at e))
]

hosts_from-lt :
    (nodes : List FlowNode) (v i w : ℕ) (rest : List FlowNode)
    → Among w (hosts_from nodes v i rest)
    → w < length nodes
unfolding hosts_from
hosts_from-lt nodes v i w [] a = nowhere a
hosts_from-lt nodes v i w (node ∷ rest) a = elim (Bool-cases (i == v)) [
  | inr e ↦ hosts_from-lt nodes v (suc i) w rest (rw (e, hosts_from) at a)
  | inl e ↦ elim (Option-cases (host_of nodes node)) [
    | inl q ↦ nowhere (rw (e, q, hosts_from) at a)
    | inr (h, q) ↦
        among_cons (λ x. x < length nodes) h w [] (host_of-lt nodes node h q) (λ b. nowhere b)
          (rw (e, q, hosts_from) at a)
  ]
]

pub succs-lt : (g : FlowScope) (v w : ℕ) → Among w (succs g v) → w < length g.nodes
unfolding succs flow_out
succs-lt g v w a =
    elim (Among-++ w (map (λ e. e.target) (flow_out g v)) (boundaries_from g.nodes v 0 g.nodes) a) [
      | inl b ↦
          Among-map (λ x. x < length g.nodes) (λ e. e.target) (flow_out g v) w
            (λ e c.
              (edges-IsWithin g.nodes g.flows e
                (Among-filter (λ d. d.source == v) e (edges g.nodes g.flows) c)).1)
            b
      | inr b ↦ omega (arith, boundaries_from-lt g.nodes v 0 w g.nodes b)
    ]

pub preds-lt : (g : FlowScope) (v w : ℕ) → Among w (preds g v) → w < length g.nodes
unfolding preds flow_in
preds-lt g v w a =
    elim (Among-++ w (map (λ e. e.source) (flow_in g v)) (hosts_from g.nodes v 0 g.nodes) a) [
      | inl b ↦
          Among-map (λ x. x < length g.nodes) (λ e. e.source) (flow_in g v) w
            (λ e c.
              (edges-IsWithin g.nodes g.flows e
                (Among-filter (λ d. d.target == v) e (edges g.nodes g.flows) c)).0)
            b
      | inr b ↦ hosts_from-lt g.nodes v 0 w g.nodes b
    ]
