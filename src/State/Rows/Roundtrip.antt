-- ===== src/State/Rows/Roundtrip.antt =====
-- Writing the rows of a state and loading them gives the state.
use mathlib.Core.Path.{subst}
use rbpmn.Common.{
  ℕ, ◌≤◌, ◌<◌, ◌≡◌, refl, sym, ◌∙◌, ap, [], ◌∷◌, ◌++◌, append_assoc, append-nil, filter, arith,
  true, false, Bool, Bool-cases, inl, inr, ltb, leb, ◌==◌, ◌+◌,
}
use rbpmn.Common.Maps.{Map, insert}
use rbpmn.State.{InstanceState}
use rbpmn.State.Rows.{counters, collect_into, rehydrate, open_work_items}

not_below : (k j : ℕ) → j < k → ltb k j ≡ false
not_below k j h = ground arith

not_same : (k j : ℕ) → j < k → (j == k) ≡ false
not_same k j h = ground arith

leb-true : (a b : ℕ) → a ≤ b → leb a b ≡ true
leb-true a b h = ground arith

module _ {ℓ} {V : Type ℓ} where
  -- The keys go up, from `lo` on.
  abbrev pub From : ℕ → Map V → Type 0
  From lo [] = Unit {0}
  From lo ((k, v) ∷ m) = (lo ≤ k) × From (1 + k) m

  From-weaken : (lo lo' : ℕ) (m : Map V) → lo ≤ lo' → From lo' m → From lo m
  From-weaken lo lo' [] l h = tt
  From-weaken lo lo' ((k, v) ∷ m) l (h, t) = (omega (arith, l, h), t)

  From-last : (lo k : ℕ) (v : V) (m rest : Map V) → From lo (m ++ (k, v) ∷ rest) → lo ≤ k
  From-last lo k v [] rest (h, _) = h
  From-last lo k v ((j, w) ∷ m) rest (h, t) = omega (arith, h, From-last (1 + j) k v m rest t)

  -- An entry past the others is added at the end.
  insert-last :
      (lo k : ℕ) (v : V) (m rest : Map V)
      → From lo (m ++ (k, v) ∷ rest)
      → insert k v m ≡ m ++ (k, v) ∷ []
  unfolding insert
  insert-last lo k v [] rest h = refl
  insert-last lo k v ((j, w) ∷ m) rest (h, t) =
      let past = From-last (1 + j) k v m rest t in
      rw (not_below k j (omega (arith, past)), not_same k j (omega (arith, past)))
        (ap (λ r. (j, w) ∷ r) (insert-last (1 + j) k v m rest t))

  collect_into-append :
      (lo : ℕ) (m rows : Map V) → From lo (m ++ rows) → collect_into m rows ≡ m ++ rows
  unfolding collect_into
  collect_into-append lo m [] h = sym (append-nil m)
  collect_into-append lo m ((k, v) ∷ rows) h = rw (insert-last lo k v m rows h) (
      collect_into-append lo (m ++ (k, v) ∷ []) rows
        (subst (From lo) (sym (append_assoc m ((k, v) ∷ []) rows)) h)
      ∙ append_assoc m ((k, v) ∷ []) rows)

  filter-From : (p : ℕ × V → Bool) (lo : ℕ) (m : Map V) → From lo m → From lo (filter p m)
  filter-From p lo [] h = tt
  filter-From p lo ((k, v) ∷ m) (h, t) = elim (Bool-cases (p (k, v))) [
    | inl e ↦ rw (e) (h, filter-From p (1 + k) m t)
    | inr e ↦
        rw (e) (From-weaken lo (1 + k) (filter p m) (omega (arith, h)) (filter-From p (1 + k) m t))
  ]

-- Every map of the state has its keys in order, and the root scope is never allocated.
pub record IsSorted (s : InstanceState) : Type 0 where
  pub tokens : From 0 s.tokens
  pub work_items : From 0 s.work_items
  pub timers : From 0 s.timers
  pub subscriptions : From 0 s.subscriptions
  pub scopes : From 0 s.scopes
  pub scope_next : 1 ≤ s.next_scope

-- A state whose maps have their keys in order, written as its rows, its open work items alone, and
-- its counters, loads as the same state without the closed work items.
pub rehydrate-counters :
    (s : InstanceState)
    → IsSorted s
    → rehydrate s.status s.variables s.tokens
        (open_work_items s)
        s.timers
        s.subscriptions
        s.scopes
        (counters s)
      ≡ record s { work_items = open_work_items s }
unfolding rehydrate
rehydrate-counters s w = rw (collect_into-append 0 [] s.tokens w.tokens) (
    rw
      (collect_into-append 0 [] (open_work_items s)
        (filter-From (λ e. e.1.is_open) 0 s.work_items w.work_items))
      (rw (collect_into-append 0 [] s.timers w.timers) (
        rw (collect_into-append 0 [] s.subscriptions w.subscriptions) (
          rw (collect_into-append 0 [] s.scopes w.scopes)
            (rw (leb-true 1 s.next_scope w.scope_next) refl)))))
