-- ===== src/Iso8601/Duration/Numbers.antt =====
-- The numbers that `number` reads.
use mathlib.Core.Path.{subst}
use rbpmn.Common.{
  ℕ, ◌≤◌, ◌≡◌, refl, ap, ◌⊎◌, inl, inr, Bool, true, false, not, ◌&&◌, some, List, [], ◌∷◌, ◌++◌,
  arith, ltb, ◌==◌, is_nil, length, Option-cases, Bool-cases,
}
use rbpmn.Condition.Decimals.{magnitude}
use rbpmn.Iso8601.Texts.{good, refuse_if, span_digits, >>=-eq-good, refuse_if-eq-good}
use rbpmn.Iso8601.Duration.{
  DurationUnit, is_seconds, component_value_ok, Scanned, with_fraction, number, same_unit,
}

-- Digits of a number of at most a million.
abbrev pub IsWhole : List ℕ → Type 0
IsWhole s = (v : ℕ) × ((magnitude s ≡ some v) × (v ≤ 1000000))

pub scanned_inj : {a n : Scanned} → good (some a) ≡ good (some n) → a ≡ n
scanned_inj h = cc

pub not-false : (b : Bool) → not b ≡ false → b ≡ true
not-false true h = refl
not-false false h = cc

-- A whole number or, where a fraction may stand, one with at most nine digits after a point.
abbrev pub IsNumber : Bool → List ℕ → Type 0
IsNumber b t =
    IsWhole t
    ⊎ ((b ≡ true)
        × ((whole : List ℕ) × (digits : List ℕ) × (IsWhole whole
              × ((length digits ≤ 9) × (t ≡ whole ++ b'.' ∷ digits)))))

pub component_value_ok-IsWhole : (s : List ℕ) → component_value_ok s ≡ true → IsWhole s
unfolding component_value_ok
component_value_ok-IsWhole s h = elim (Option-cases (magnitude s)) [
  | inl n ↦ cc (rw (n, component_value_ok) at h)
  | inr (v, n) ↦ let small = rw (n, component_value_ok) at h in (v, (n, ground (arith, small)))
]

pub ==-eq : {a b : ℕ} → (a == b) ≡ true → a ≡ b
==-eq h = ground arith

pub with_fraction-IsNumber :
    (whole s : List ℕ) (n : Scanned)
    → IsWhole whole
    → with_fraction whole s ≡ good (some n)
    → IsNumber n.has_fraction n.text
unfolding with_fraction
with_fraction-IsNumber whole [] n w h =
    subst (λ m. IsNumber m.has_fraction m.text) (scanned_inj h) (inl w)
with_fraction-IsNumber whole (c ∷ s) n w h = elim (Bool-cases (c == b'.')) [
  | inr e ↦
      subst (λ m. IsNumber m.has_fraction m.text) (scanned_inj (rw (e, with_fraction) at h)) (inl w)
  | inl e ↦
      let (_, _, e0) =
        >>=-eq-good (refuse_if (is_nil (span_digits s).0) _) _ (rw (e, with_fraction) at h) in
      let (_, few, e1) = >>=-eq-good (refuse_if (ltb 9 (length (span_digits s).0)) _) _ e0 in
      let few' = refuse_if-eq-good _ _ few in
      subst (λ m. IsNumber m.has_fraction m.text) (scanned_inj e1)
        (inr (
          refl,
          (
            whole,
            (span_digits s).0,
            (w, (ground (arith, few'), ap (λ d. whole ++ d ∷ (span_digits s).0) (==-eq e))),
          ),
        ))
]

pub number-IsNumber :
    (s : List ℕ) (n : Scanned) → number s ≡ good (some n) → IsNumber n.has_fraction n.text
unfolding number
number-IsNumber s n h = elim (Bool-cases (is_nil (span_digits s).0)) [
  | inl e ↦ cc (rw (e, number) at h)
  | inr e ↦
      let (_, ok, e') =
        >>=-eq-good (refuse_if (not (component_value_ok (span_digits s).0)) _) _
          (rw (e, number) at h) in
      with_fraction-IsNumber (span_digits s).0 (span_digits s).1 n
        (component_value_ok-IsWhole _ (not-false _ (refuse_if-eq-good _ _ ok))) e'
]

-- A fraction is taken where the unit is the seconds.
pub IsNumber-taken :
    (b fractional : Bool) (t : List ℕ)
    → fractional && not b ≡ false
    → IsNumber fractional t
    → IsNumber b t
IsNumber-taken b fractional t h (inl w) = inl w
IsNumber-taken true fractional t h (inr (_, w)) = inr (refl, w)
IsNumber-taken false true t h (inr (e, w)) = cc
IsNumber-taken false false t h (inr (e, w)) = cc

pub same_unit-is_seconds : (v u : DurationUnit) → same_unit v u ≡ true → is_seconds v ≡ is_seconds u
same_unit-is_seconds v u h = ground arith
