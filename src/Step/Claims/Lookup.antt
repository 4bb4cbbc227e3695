-- ===== src/Step/Claims/Lookup.antt =====
-- What a map answers after one update.
use rbpmn.Common.{ℕ, ◌≡◌, ◌≢◌, ◌⊎◌, inl, inr, none, some, ◌==◌, ==_iff, Bool-cases, arith}
use rbpmn.Common.Maps.{Map, get, insert, remove, get-insert, get-remove}

pub same_or_not : (a b : ℕ) → (a ≡ b) ⊎ (a ≢ b)
same_or_not a b = elim (Bool-cases (a == b)) [
  | inl e ↦ inl ((==_iff a b).0 e)
  | inr e ↦ inr (λ q. cc (e, (==_iff a b).1 q))
]

module _ {V : Type 0} where
  pub get-insert_same : (k : ℕ) (v : V) (m : Map V) → get k (insert k v m) ≡ some v
  get-insert_same k v m = ground (arith, get-insert k k v m)

  pub get-insert_other : (k j : ℕ) (v : V) (m : Map V) → k ≢ j → get j (insert k v m) ≡ get j m
  get-insert_other k j v m n = ground (arith, get-insert k j v m)

  pub get-remove_same : (k : ℕ) (m : Map V) → get k (remove k m) ≡ none
  get-remove_same k m = ground (arith, get-remove k k m)

  pub get-remove_other : (k j : ℕ) (m : Map V) → k ≢ j → get j (remove k m) ≡ get j m
  get-remove_other k j m n = ground (arith, get-remove k j m)

pub get-remove_sub :
    {V : Type 0} (k j : ℕ) (v : V) (m : Map V) → get j (remove k m) ≡ some v → get j m ≡ some v
get-remove_sub k j v m e = ground (arith, get-remove k j m)

-- A token with an entry is not the one without.
pub parked_apart :
    {V : Type 0} {j k : ℕ} {v : V} (m : Map V) → get j m ≡ some v → get k m ≡ none → j ≢ k
parked_apart m p n e = cc
