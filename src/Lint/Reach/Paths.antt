-- ===== src/Lint/Reach/Paths.antt =====
-- The traversal ends within its fuel and marks the nodes that a path from the seeds comes to.
use mathlib.Core.Path.{subst}
use rbpmn.Common.{
  nowhere, ℕ, zero, suc, ◌+◌, ◌≤◌, ◌<◌, ◌≡◌, ◌↔◌, ◌⊎◌, inl, inr, refl, Bool, true, false, some,
  List, [], ◌∷◌, ◌==◌, ==_iff, length, arith, Among, first, later, Bool-cases,
}
use rbpmn.Lint.Reach.{Walk, mark, visit, walk, mark_all, push_all, reach}
use rbpmn.Lint.Reach.Visits.{Visits, unmarked, unmarked-le, visit-Visits, visit-length}

mark_all-keeps :
    (v : ℕ) (seeds : List ℕ) (visited : ℕ → Bool)
    → visited v ≡ true
    → mark_all seeds visited v ≡ true
mark_all-keeps v [] visited e = e
mark_all-keeps v (s ∷ seeds) visited e = mark_all-keeps v seeds (mark s visited) (ground (arith, e))

mark_all-Among :
    (v : ℕ) (seeds : List ℕ) (visited : ℕ → Bool) → Among v seeds → mark_all seeds visited v ≡ true
mark_all-Among v [] visited a = nowhere a
mark_all-Among _ (s ∷ seeds) visited first = mark_all-keeps s seeds (mark s visited) (ground arith)
mark_all-Among v (s ∷ seeds) visited (later a) = mark_all-Among v seeds (mark s visited) a

mark_all_cases :
    (v : ℕ) (seeds : List ℕ) (visited : ℕ → Bool)
    → mark_all seeds visited v ≡ true
    → Among v seeds ⊎ (visited v ≡ true)
mark_all_cases v [] visited e = inr e
mark_all_cases v (s ∷ seeds) visited e = elim (mark_all_cases v seeds (mark s visited) e) [
  | inl a ↦ inl (later a)
  | inr m ↦ elim (Bool-cases (s == v)) [
    | inl same ↦ inl (subst (λ x. Among x (s ∷ seeds)) ((==_iff s v).0 same) first)
    | inr other ↦ inr (rw other at m)
  ]
]

push_all-keeps : (v : ℕ) (seeds queue : List ℕ) → Among v queue → Among v (push_all seeds queue)
push_all-keeps v [] queue a = a
push_all-keeps v (s ∷ seeds) queue a = push_all-keeps v seeds (s ∷ queue) (later a)

push_all-Among : (v : ℕ) (seeds queue : List ℕ) → Among v seeds → Among v (push_all seeds queue)
push_all-Among v [] queue a = nowhere a
push_all-Among _ (s ∷ seeds) queue first = push_all-keeps s seeds (s ∷ queue) first
push_all-Among v (s ∷ seeds) queue (later a) = push_all-Among v seeds (s ∷ queue) a

among_either :
    (v s : ℕ) (seeds queue : List ℕ)
    → Among v seeds ⊎ Among v (s ∷ queue)
    → Among v (s ∷ seeds) ⊎ Among v queue
among_either v s seeds queue (inl a) = inl (later a)
among_either _ s seeds queue (inr first) = inl first
among_either v s seeds queue (inr (later a)) = inr a

push_all_cases :
    (v : ℕ) (seeds queue : List ℕ) → Among v (push_all seeds queue) → Among v seeds ⊎ Among v queue
push_all_cases v [] queue a = inr a
push_all_cases v (s ∷ seeds) queue a =
    among_either v s seeds queue (push_all_cases v seeds (s ∷ queue) a)

length-push_all :
    (seeds queue : List ℕ) → length (push_all seeds queue) ≡ length seeds + length queue
length-push_all [] queue = omega arith
length-push_all (s ∷ seeds) queue = omega (arith, length-push_all seeds (s ∷ queue))

module _ (neighbors : ℕ → List ℕ) (seeds : List ℕ) where
  -- A node that a path from a seed comes to.
  pub data Reaches : ℕ → Type 0 where
    seed : {s : ℕ} → Among s seeds → Reaches s
    next : {v w : ℕ} → Reaches v → Among w (neighbors v) → Reaches w

  -- Between two rounds.
  record Marked (visited : ℕ → Bool) (queue : List ℕ) : Type 0 where
    sound : (v : ℕ) → visited v ≡ true → Reaches v
    queued : (v : ℕ) → Among v queue → visited v ≡ true
    closed :
        (v : ℕ)
        → visited v ≡ true
        → Among v queue ⊎ ((w : ℕ) → Among w (neighbors v) → visited w ≡ true)
    seeded : (s : ℕ) → Among s seeds → visited s ≡ true

  Reaches-visited :
      (visited : ℕ → Bool) → Marked visited [] → (v : ℕ) → Reaches v → visited v ≡ true
  Reaches-visited visited m v (seed a) = m.seeded v a
  Reaches-visited visited m w (next {v} r a) = elim (m.closed v (Reaches-visited visited m v r)) [
    | inl q ↦ nowhere q
    | inr f ↦ f w a
  ]

  visit-Marked :
      (v : ℕ) (visited : ℕ → Bool) (queue : List ℕ) (k : Walk)
      → Marked visited (v ∷ queue)
      → Visits (neighbors v) (record { visited = visited; queue = queue }) k
      → Marked k.visited k.queue
  visit-Marked v visited queue k m r = record {
    sound = λ x e. elim (r.new x e) [
      | inl e' ↦ m.sound x e'
      | inr (a, _) ↦ next (m.sound v (m.queued v first)) a
    ];
    queued = λ x a. elim (r.pushed x a) [ inl b ↦ r.kept x (m.queued x (later b)) | inr e ↦ e ];
    closed = λ x e. elim (r.new x e) [ inr (_, q) ↦ inl q | inl e' ↦ closed_of x (m.closed x e') ];
    seeded = λ s a. r.kept s (m.seeded s a);
  }
    where
      closed_of :
          (x : ℕ)
          → Among x (v ∷ queue) ⊎ ((w : ℕ) → Among w (neighbors x) → visited w ≡ true)
          → Among x k.queue ⊎ ((w : ℕ) → Among w (neighbors x) → k.visited w ≡ true)
      closed_of _ (inl first) = inr r.marked
      closed_of x (inl (later a)) = inl (r.stacked x a)
      closed_of x (inr f) = inr (λ w a. r.kept w (f w a))

  begun : Marked (mark_all seeds λ _. false) (push_all seeds [])
  begun = record {
    sound = λ v e. elim (mark_all_cases v seeds (λ _. false) e) [ inl a ↦ seed a | inr e' ↦ cc ];
    queued = λ v a. elim (push_all_cases v seeds [] a) [
      | inl b ↦ mark_all-Among v seeds (λ _. false) b
      | inr b ↦ nowhere b
    ];
    closed = λ v e. elim (mark_all_cases v seeds (λ _. false) e) [
      | inl a ↦ inl (push_all-Among v seeds [] a)
      | inr e' ↦ cc
    ];
    seeded = λ s a. mark_all-Among s seeds (λ _. false) a;
  }

  -- The result marks the nodes that are reached and no other.
  abbrev pub IsExact : (ℕ → Bool) → Type 0
  IsExact visited = (v : ℕ) → (visited v ≡ true) ↔ Reaches v

  module _ (n : ℕ) (bounded : (v w : ℕ) → Among w (neighbors v) → w < n) where
    walk-IsExact :
        (fuel : ℕ) (visited : ℕ → Bool) (queue : List ℕ)
        → Marked visited queue
        → unmarked n visited + length queue ≤ fuel
        → (found : ℕ → Bool) × ((walk neighbors fuel visited queue ≡ some found) × IsExact found)
    unfolding walk
    walk-IsExact fuel visited [] m l =
        (visited, (refl, λ v. (m.sound v, Reaches-visited visited m v)))
    walk-IsExact zero visited (v ∷ queue) m l = absurd (omega arith)
    walk-IsExact (suc fuel) visited (v ∷ queue) m l =
        let k : Walk = visit (neighbors v) (record { visited = visited; queue = queue }) in
        let r = visit-Visits (neighbors v) (record { visited = visited; queue = queue }) in
        walk-IsExact fuel k.visited k.queue (visit-Marked v visited queue k m r) (
          omega (
            arith,
            l,
            visit-length n (neighbors v) (record { visited = visited; queue = queue }) (bounded v),
          ))

    -- Where every neighbour is below `n`, the traversal ends within a round for each node and each
    -- seed, and it marks a node exactly where a path from a seed comes to it.
    pub reach-IsExact :
        (found : ℕ → Bool) × ((reach n seeds neighbors ≡ some found) × IsExact found)
    unfolding reach
    reach-IsExact =
        walk-IsExact (n + length seeds) (mark_all seeds λ _. false) (push_all seeds []) begun
          (omega (arith, unmarked-le n (mark_all seeds λ _. false), length-push_all seeds []))
