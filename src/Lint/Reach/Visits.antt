-- ===== src/Lint/Reach/Visits.antt =====
-- One round of the traversal: what the loop over the neighbours marks and pushes.
use mathlib.Core.Path.{subst}
use rbpmn.Common.{
  nowhere, ℕ, zero, suc, ◌+◌, ◌≤◌, ◌<◌, ◌≡◌, ◌⊎◌, inl, inr, refl, Bool, true, false, List, [], ◌∷◌,
  ◌==◌, ==_iff, length, arith, Among, first, later, Bool-cases, if◌then◌else◌,
}
use rbpmn.Lint.Reach.{Walk, mark, visit}

-- The nodes below `n` that are not marked.
unfoldable pub unmarked : ℕ → (ℕ → Bool) → ℕ
unmarked zero visited = 0
unmarked (suc n) visited = unmarked n visited + (if visited n then 0 else 1)

pub unmarked-le : (n : ℕ) (visited : ℕ → Bool) → unmarked n visited ≤ n
unfolding unmarked
unmarked-le zero visited = omega arith
unmarked-le (suc n) visited = ground (arith, unmarked-le n visited)

-- A mark past `n` does not count, one below it does.
unmarked-past :
    (n w : ℕ) (visited : ℕ → Bool) → n ≤ w → unmarked n (mark w visited) ≡ unmarked n visited
unfolding unmarked
unmarked-past zero w visited l = refl
unmarked-past (suc n) w visited l = ground (arith, l, unmarked-past n w visited (omega (arith, l)))

unmarked-mark :
    (n w : ℕ) (visited : ℕ → Bool)
    → w < n
    → visited w ≡ false
    → unmarked n (mark w visited) + 1 ≡ unmarked n visited
unfolding unmarked
unmarked-mark zero w visited l h = absurd (omega arith)
unmarked-mark (suc n) w visited l h = elim (Bool-cases (w == n)) [
  | inl e ↦
      let same = (==_iff w n).0 e in
      let here = subst (λ v. visited v ≡ false) same h in
      rw (e, here) (omega (arith, unmarked-past n w visited (omega (arith, same))))
  | inr e ↦ rw (e) (omega (arith, unmarked-mark n w visited (ground (arith, l, e)) h))
]

-- What the loop over neighbours does.
pub record Visits (ws : List ℕ) (k k' : Walk) : Type 0 where
  pub kept : (v : ℕ) → k.visited v ≡ true → k'.visited v ≡ true
  pub marked : (v : ℕ) → Among v ws → k'.visited v ≡ true
  pub new : (v : ℕ) → k'.visited v ≡ true → (k.visited v ≡ true) ⊎ (Among v ws × Among v k'.queue)
  pub stacked : (v : ℕ) → Among v k.queue → Among v k'.queue
  pub pushed : (v : ℕ) → Among v k'.queue → Among v k.queue ⊎ (k'.visited v ≡ true)

mark-true : (w v : ℕ) (visited : ℕ → Bool) → visited v ≡ true → mark w visited v ≡ true
mark-true w v visited h = ground (arith, h)

mark_self : (w : ℕ) (visited : ℕ → Bool) → mark w visited w ≡ true
mark_self w visited = ground arith

mark_cases : (w v : ℕ) (visited : ℕ → Bool) → mark w visited v ≡ true → (w ≡ v) ⊎ (visited v ≡ true)
mark_cases w v visited h = ground (arith, h)

-- The next neighbour is marked already, or it is marked and pushed.
Visits-skip :
    (w : ℕ) (ws : List ℕ) (k k' : Walk) → k.visited w ≡ true → Visits ws k k' → Visits (w ∷ ws) k k'
Visits-skip w ws k k' h r = record {
  kept = r.kept;
  marked = λ v a. marked_of v a;
  new = λ v e. new_of v (r.new v e);
  stacked = r.stacked;
  pushed = r.pushed;
}
  where
    marked_of : (v : ℕ) → Among v (w ∷ ws) → k'.visited v ≡ true
    marked_of _ first = r.kept w h
    marked_of v (later a) = r.marked v a

    new_of :
        (v : ℕ)
        → (k.visited v ≡ true) ⊎ (Among v ws × Among v k'.queue)
        → (k.visited v ≡ true) ⊎ (Among v (w ∷ ws) × Among v k'.queue)
    new_of v (inl e) = inl e
    new_of v (inr (a, q)) = inr (later a, q)

abbrev pushing : ℕ → Walk → Walk
pushing w k = record { visited = mark w k.visited; queue = w ∷ k.queue }

Visits-push :
    (w : ℕ) (ws : List ℕ) (k k' : Walk) → Visits ws (pushing w k) k' → Visits (w ∷ ws) k k'
Visits-push w ws k k' r = record {
  kept = λ v e. r.kept v (mark-true w v k.visited e);
  marked = marked_of;
  new = λ v e. new_of v (r.new v e);
  stacked = λ v a. r.stacked v (later a);
  pushed = λ v a. pushed_of v (r.pushed v a);
}
  where
    here : k'.visited w ≡ true
    here = r.kept w (mark_self w k.visited)

    marked_of : (v : ℕ) → Among v (w ∷ ws) → k'.visited v ≡ true
    marked_of _ first = here
    marked_of v (later a) = r.marked v a

    first_of :
        (v : ℕ)
        → (w ≡ v) ⊎ (k.visited v ≡ true)
        → (k.visited v ≡ true) ⊎ (Among v (w ∷ ws) × Among v k'.queue)
    first_of v (inl e) =
        inr (subst (λ x. Among x (w ∷ ws) × Among x k'.queue) e (first, r.stacked w first))
    first_of v (inr e) = inl e

    new_of :
        (v : ℕ)
        → (mark w k.visited v ≡ true) ⊎ (Among v ws × Among v k'.queue)
        → (k.visited v ≡ true) ⊎ (Among v (w ∷ ws) × Among v k'.queue)
    new_of v (inl e) = first_of v (mark_cases w v k.visited e)
    new_of v (inr (a, q)) = inr (later a, q)

    pushed_of :
        (v : ℕ)
        → Among v (w ∷ k.queue) ⊎ (k'.visited v ≡ true)
        → Among v k.queue ⊎ (k'.visited v ≡ true)
    pushed_of v (inr e) = inr e
    pushed_of _ (inl first) = inr here
    pushed_of v (inl (later a)) = inl a

pub visit-Visits : (ws : List ℕ) (k : Walk) → Visits ws k (visit ws k)
unfolding visit
visit-Visits [] k = record {
  kept = λ v e. e;
  marked = λ v a. nowhere a;
  new = λ v e. inl e;
  stacked = λ v a. a;
  pushed = λ v a. inl a;
}
visit-Visits (w ∷ ws) k = elim (Bool-cases (k.visited w)) [
  | inl e ↦ rw (e, visit) (Visits-skip w ws k (visit ws k) e (visit-Visits ws k))
  | inr e ↦
      rw (e, visit) (Visits-push w ws k (visit ws (pushing w k)) (visit-Visits ws (pushing w k)))
]

-- Each node that is pushed was not marked.
pub visit-length :
    (n : ℕ) (ws : List ℕ) (k : Walk)
    → ((w : ℕ) → Among w ws → w < n)
    → unmarked n (visit ws k).visited + length (visit ws k).queue
      ≡ unmarked n k.visited + length k.queue
unfolding visit
visit-length n [] k b = refl
visit-length n (w ∷ ws) k b = elim (Bool-cases (k.visited w)) [
  | inl e ↦ rw (e, visit) (visit-length n ws k (λ v a. b v (later a)))
  | inr e ↦
      rw (e, visit)
        (omega (
          arith,
          visit-length n ws (pushing w k) (λ v a. b v (later a)),
          unmarked-mark n w k.visited (b w first) e,
        ))
]
