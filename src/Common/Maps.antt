-- ===== src/Common/Maps.antt =====
-- `BTreeMap` keyed by an id: an association list kept in key order, the order of its iterators.
pub mod Order
use Prim.Native.Nat.{ℕ}
use mathlib.Core.Path.{◌≡◌, refl, sym, subst}
use mathlib.Core.Bool.{Bool, true, false, not}
use mathlib.Core.Logic.{◌⊎◌, inl, inr}
use mathlib.Core.Option.{Option, none, some, some-injective}
use mathlib.Core.List.{List, [], ◌∷◌, map}
use native.Mathlib.Omega.{arith}
use rbpmn.Common.Tests.{ltb, ◌==◌, ==_iff, Bool-cases, if◌then◌else◌}
use rbpmn.Common.Lists.{filter}
use rbpmn.Common.Members.{Among, first, later, nowhere, Among-cons}

abbrev pub Map {ℓ} : Type ℓ → Type ℓ
Map V = List (ℕ × V)

module _ {ℓ} {V : Type ℓ} where
  abbrev pub keys : Map V → List ℕ
  keys = map λ e. e.0

  abbrev pub get : ℕ → Map V → Option V
  get k [] = none
  get k ((j, v) ∷ m) = if j == k then some v else get k m

  -- `insert` keeps the key order and overwrites an entry of the same key.
  unfoldable pub insert : ℕ → V → Map V → Map V
  insert k v [] = (k, v) ∷ []
  insert k v ((j, w) ∷ m) =
      if ltb k j then (k, v) ∷ (j, w) ∷ m else if j == k then (k, v) ∷ m else (j, w) ∷ insert k v m

  -- `retain`, and `remove` of one key.
  abbrev pub retain : (ℕ → V → Bool) → Map V → Map V
  retain p = filter λ e. p e.0 e.1

  abbrev pub remove : ℕ → Map V → Map V
  remove k = retain λ j _. not (j == k)

  pub get-insert :
      (k q : ℕ) (v : V) (m : Map V) → get q (insert k v m) ≡ (if k == q then some v else get q m)
  unfolding insert
  get-insert k q v [] = refl
  get-insert k q v ((j, w) ∷ m) = ground (arith, get-insert k q v m)

  pub get-remove : (k q : ℕ) (m : Map V) → get q (remove k m) ≡ (if k == q then none else get q m)
  get-remove k q [] = ground arith
  get-remove k q ((j, w) ∷ m) = ground (arith, get-remove k q m)

-- An entry after an insertion is the new one or was there.
pub Among-insert :
    {V : Type 0} {x : ℕ × V} (k : ℕ) (v : V) (m : Map V)
    → Among x (insert k v m)
    → (x ≡ (k, v)) ⊎ Among x m
unfolding insert
Among-insert k v [] first = inl refl
Among-insert k v [] (later h) = nowhere h
Among-insert {V} {x} k v ((j, w) ∷ m) h = placed (ltb k j) (j == k) (Among-insert k v m) h
  where
    placed :
        (b c : Bool)
        → (Among x (insert k v m) → (x ≡ (k, v)) ⊎ Among x m)
        → Among x
            (if b then (k, v) ∷ (j, w) ∷ m else if c then (k, v) ∷ m else (j, w) ∷ insert k v m)
        → (x ≡ (k, v)) ⊎ Among x ((j, w) ∷ m)
    placed true c rest n = elim (Among-cons n) [ inl e ↦ inl e | inr o ↦ inr o ]
    placed false true rest n = elim (Among-cons n) [ inl e ↦ inl e | inr o ↦ inr (later o) ]
    placed false false rest n = elim (Among-cons n) [
      | inl e ↦ inr (subst (λ z. Among x (z ∷ m)) e first)
      | inr o ↦ elim (rest o) [ inl e ↦ inl e | inr q ↦ inr (later q) ]
    ]

-- What is found under a key is an entry.
pub get-Among : {V : Type 0} (k : ℕ) (v : V) (m : Map V) → get k m ≡ some v → Among (k, v) m
get-Among k v [] h = cc
get-Among {V} k v ((j, w) ∷ m) h = here (j == k) (==_iff j k).0 (get-Among k v m) h
  where
    here :
        (b : Bool)
        → (b ≡ true → j ≡ k)
        → (get k m ≡ some v → Among (k, v) m)
        → (if b then some w else get k m) ≡ some v
        → Among (k, v) ((j, w) ∷ m)
    here true e rest q =
        subst (λ x. Among (k, v) (x ∷ m)) (λ i. (sym (e refl) i, sym (some-injective w v q) i))
          first
    here false e rest q = later (rest q)
