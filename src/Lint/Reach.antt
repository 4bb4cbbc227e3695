-- ===== src/Lint/Reach.antt =====
-- `reach` of lint/structure.rs. Nodes are indices; the marks are a total function, as every index is
-- one that the graph made. The stack has its top first.
pub mod Visits
pub mod Paths
use rbpmn.Common.{
  ℕ, zero, suc, ◌+◌, Bool, true, false, ◌||◌, Option, none, some, List, [], ◌∷◌, ◌==◌, length,
}

pub record Walk : Type 0 where
  pub visited : ℕ → Bool
  pub queue : List ℕ

abbrev pub mark : ℕ → (ℕ → Bool) → ℕ → Bool
mark w visited v = w == v || visited v

-- The loop over the neighbours: mark before push.
unfoldable pub visit : List ℕ → Walk → Walk
visit [] k = k
visit (w ∷ ws) k = elim (k.visited w) [
  | true ↦ visit ws k
  | false ↦ visit ws (record { visited = mark w k.visited; queue = w ∷ k.queue })
]

-- `while let Some(v) = queue.pop()`; `none` is a fuel that ran out.
unfoldable pub walk : (ℕ → List ℕ) → ℕ → (ℕ → Bool) → List ℕ → Option (ℕ → Bool)
walk neighbors fuel visited [] = some visited
walk neighbors zero visited (v ∷ queue) = none
walk neighbors (suc fuel) visited (v ∷ queue) =
    let k = visit (neighbors v) (record { visited = visited; queue = queue }) in
    walk neighbors fuel k.visited k.queue

abbrev pub mark_all : List ℕ → (ℕ → Bool) → ℕ → Bool
mark_all [] visited = visited
mark_all (s ∷ seeds) visited = mark_all seeds (mark s visited)

-- `seeds.to_vec()`, which is popped from its end.
abbrev pub push_all : List ℕ → List ℕ → List ℕ
push_all [] queue = queue
push_all (s ∷ seeds) queue = push_all seeds (s ∷ queue)

-- Each round takes one node off the stack, and each node is pushed once besides the seeds.
unfoldable pub reach : ℕ → List ℕ → (ℕ → List ℕ) → Option (ℕ → Bool)
reach n seeds neighbors =
    walk neighbors (n + length seeds) (mark_all seeds λ _. false) (push_all seeds [])
