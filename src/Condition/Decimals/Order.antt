-- ===== src/Condition/Decimals/Order.antt =====
-- The order of decimals is antisymmetric.
use Prim.Native.Nat.{Ordering}
use rbpmn.Common.{
  ℕ, ◌≡◌, refl, ◌∙◌, ap, List, [], ◌∷◌, length, leb, Option, none, some, arith, String,
  if◌then◌else◌,
}
use rbpmn.Common.Int.{ℤ, pos, compare_ℤ, ◌+ℤ◌}
use rbpmn.Condition.Decimals.{
  codes, decimal_parts, DecimalParts, compare_text, pad, compare_magnitudes, reversed,
  compare_parts, compare_decimals,
}

compare_text-reversed : (s t : List ℕ) → compare_text s t ≡ reversed (compare_text t s)
unfolding compare_text
compare_text-reversed [] [] = refl
compare_text-reversed [] (b ∷ t) = refl
compare_text-reversed (a ∷ s) [] = refl
compare_text-reversed (a ∷ s) (b ∷ t) = ground (arith, compare_text-reversed s t)

width : List ℕ → List ℕ → ℕ
width s t = if leb (length s) (length t) then length t else length s

width_comm : (s t : List ℕ) → width s t ≡ width t s
unfolding width
width_comm s t = ground arith

-- The order of two numbers that are padded to one width.
order_at : ℕ → List ℕ → ℤ → List ℕ → ℤ → Ordering
unfolding ◌+ℤ◌
order_at n s e t f =
    let digits = compare_text (pad s n) (pad t n) in
    elim (compare_ℤ (pos (length s) +ℤ e) (pos (length t) +ℤ f)) [
      | Ordering.eq ↦ digits
      | Ordering.lt ↦ Ordering.lt
      | Ordering.gt ↦ Ordering.gt
    ]

order_at-reversed :
    (n : ℕ) (s : List ℕ) (e : ℤ) (t : List ℕ) (f : ℤ)
    → order_at n s e t f ≡ reversed (order_at n t f s e)
unfolding order_at
order_at-reversed n s e t f = ground (arith, compare_text-reversed (pad s n) (pad t n))

compare_magnitudes-reversed :
    (s : List ℕ) (e : ℤ) (t : List ℕ) (f : ℤ)
    → compare_magnitudes s e t f ≡ reversed (compare_magnitudes t f s e)
unfolding compare_magnitudes width order_at
compare_magnitudes-reversed s e t f =
    ap (λ n. order_at n s e t f) (width_comm s t) ∙ order_at-reversed (width t s) s e t f

compare_parts-reversed : (a b : DecimalParts) → compare_parts a b ≡ reversed (compare_parts b a)
unfolding compare_parts
compare_parts-reversed a b =
    ground (arith, compare_magnitudes-reversed a.digits a.exponent b.digits b.exponent)

abbrev pub map_reversed : Option Ordering → Option Ordering
map_reversed none = none
map_reversed (some o) = some (reversed o)

-- Exchanging two texts exchanges less and greater, keeps equal, and keeps the refusal of a text that
-- is no number.
pub compare_decimals-reversed :
    (s t : String) → compare_decimals s t ≡ map_reversed (compare_decimals t s)
unfolding compare_decimals
compare_decimals-reversed s t = go (decimal_parts (codes s)) (decimal_parts (codes t))
  where
    go :
        (p q : Option DecimalParts)
        → (elim p [
          | none ↦ none
          | some x ↦ elim q [ none ↦ none | some y ↦ some (compare_parts x y) ]
        ])
          ≡ map_reversed (elim q [
            | none ↦ none
            | some x ↦ elim p [ none ↦ none | some y ↦ some (compare_parts x y) ]
          ])
    go none none = refl
    go none (some y) = refl
    go (some x) none = refl
    go (some x) (some y) = ap some (compare_parts-reversed x y)
