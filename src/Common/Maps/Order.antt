-- ===== src/Common/Maps/Order.antt =====
-- The key order of a map, what keeps it, and what it makes of an entry.
use Prim.Native.Nat.{ℕ, ◌<◌}
use mathlib.Core.Path.{◌≡◌, sym, subst}
use mathlib.Core.Logic.{inl, inr}
use mathlib.Core.Bool.{Bool, true, false}
use mathlib.Core.Option.{some}
use mathlib.Core.List.{[], ◌∷◌, map}
use native.Mathlib.Omega.{arith}
use rbpmn.Common.Tests.{ltb, ◌==◌, if◌then◌else◌, Bool-cases}
use rbpmn.Common.Lists.{filter}
use rbpmn.Common.Members.{Among, nowhere, Among-cons}
use rbpmn.Common.Maps.{Map, get, insert}

module _ {V : Type 0} where
  -- Every key is above `lo`.
  abbrev pub Above : ℕ → Map V → Type 0
  Above lo [] = Unit
  Above lo ((k, _) ∷ m) = (lo < k) × Above lo m

  abbrev pub IsOrdered : Map V → Type 0
  IsOrdered [] = Unit
  IsOrdered ((k, _) ∷ m) = Above k m × IsOrdered m

  Above-le : (lo hi : ℕ) (m : Map V) → lo < hi → Above hi m → Above lo m
  Above-le lo hi [] l a = tt
  Above-le lo hi ((k, _) ∷ m) l (b, a) = (omega arith, Above-le lo hi m l a)

  insert-Above : (lo k : ℕ) (v : V) (m : Map V) → lo < k → Above lo m → Above lo (insert k v m)
  unfolding insert
  insert-Above lo k v [] l a = (l, tt)
  insert-Above lo k v ((j, w) ∷ m) l (b, a) = placed (ltb k j) (j == k) (insert-Above lo k v m l a)
    where
      placed :
          (p q : Bool)
          → Above lo (insert k v m)
          → Above lo
              (if p then (k, v) ∷ (j, w) ∷ m else if q then (k, v) ∷ m else (j, w) ∷ insert k v m)
      placed true q r = (l, (b, a))
      placed false true r = (l, a)
      placed false false r = (b, r)

  pub insert-IsOrdered : (k : ℕ) (v : V) (m : Map V) → IsOrdered m → IsOrdered (insert k v m)
  unfolding insert
  insert-IsOrdered k v [] o = (tt, tt)
  insert-IsOrdered k v ((j, w) ∷ m) (a, o) = elim (Bool-cases (ltb k j)) [
    | inl p ↦ rw p ((ground arith, Above-le k j m (ground arith) a), (a, o))
    | inr p ↦ elim (Bool-cases (j == k)) [
      | inl q ↦ let e : j ≡ k = ground arith in rw (p, q) (subst (λ i. Above i m) e a, o)
      | inr q ↦ rw (p, q) (insert-Above j k v m (ground arith) a, insert-IsOrdered k v m o)
    ]
  ]

  filter-Above : (lo : ℕ) (p : ℕ × V → Bool) (m : Map V) → Above lo m → Above lo (filter p m)
  filter-Above lo p [] a = tt
  filter-Above lo p (e ∷ m) (b, a) = kept (p e) (filter-Above lo p m a)
    where
      kept :
          (c : Bool) → Above lo (filter p m) → Above lo (if c then e ∷ filter p m else filter p m)
      kept true r = (b, r)
      kept false r = r

  pub filter-IsOrdered : (p : ℕ × V → Bool) (m : Map V) → IsOrdered m → IsOrdered (filter p m)
  filter-IsOrdered p [] o = tt
  filter-IsOrdered p (e ∷ m) (a, o) = kept (p e) (filter-Above e.0 p m a) (filter-IsOrdered p m o)
    where
      kept :
          (c : Bool)
          → Above e.0 (filter p m)
          → IsOrdered (filter p m)
          → IsOrdered (if c then e ∷ filter p m else filter p m)
      kept true b r = (b, r)
      kept false b r = r

  map-Above : (lo : ℕ) (f : V → V) (m : Map V) → Above lo m → Above lo (map (λ e. (e.0, f e.1)) m)
  map-Above lo f [] a = tt
  map-Above lo f ((k, v) ∷ m) (b, a) = (b, map-Above lo f m a)

  pub map-IsOrdered : (f : V → V) (m : Map V) → IsOrdered m → IsOrdered (map (λ e. (e.0, f e.1)) m)
  map-IsOrdered f [] o = tt
  map-IsOrdered f ((k, v) ∷ m) (a, o) = (map-Above k f m a, map-IsOrdered f m o)

  pub Above-of : (lo k : ℕ) (v : V) (m : Map V) → Above lo m → Among (k, v) m → lo < k
  Above-of lo k v [] a i = nowhere i
  Above-of lo k v ((j, w) ∷ m) (b, a) i = elim (Among-cons i) [
    | inl e ↦ subst (λ x. lo < x.0) (sym e) b
    | inr n ↦ Above-of lo k v m a n
  ]

  -- In key order, an entry is what is found under its key.
  pub Among-get : (k : ℕ) (v : V) (m : Map V) → IsOrdered m → Among (k, v) m → get k m ≡ some v
  Among-get k v [] o i = nowhere i
  Among-get k v ((j, w) ∷ m) (a, o) i = elim (Among-cons i) [
    | inl e ↦ subst (λ x. get x.0 ((j, w) ∷ m) ≡ some x.1) (sym e) (ground arith)
    | inr n ↦ let l = Above-of j k v m a n in let r = Among-get k v m o n in ground arith
  ]
