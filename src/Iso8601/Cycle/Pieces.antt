-- ===== src/Iso8601/Cycle/Pieces.antt =====
-- The text that `split_cycle` takes apart (iso8601.rs).
use rbpmn.Common.{
  ==_iff, ℕ, ◌≡◌, refl, sym, ap, ◌∙◌, false, Option, none, some, List, [], ◌∷◌, ◌++◌, ◌==◌,
  Bool-cases, inl, inr, is_nil, arith,
}
use rbpmn.Condition.Decimals.{is_digit, magnitude}
use rbpmn.Iso8601.Float.{Float}
use rbpmn.Iso8601.Texts.{good, span_digits}
use rbpmn.Iso8601.Duration.{after}
use rbpmn.Iso8601.Cycle.{counted, repeat_count, split, anchored}

-- The parts, with a slash between them.
abbrev pub slashed : List (List ℕ) → List ℕ
slashed [] = []
slashed (p ∷ []) = p
slashed (p ∷ q ∷ ps) = p ++ b'/' ∷ slashed (q ∷ ps)

-- An anchor, if any, and a period.
abbrev pub listed : Option (List ℕ) → List ℕ → List (List ℕ)
listed none period = period ∷ []
listed (some anchor) period = anchor ∷ period ∷ []

-- The text of a cycle.
abbrev pub written : List ℕ → Option (List ℕ) → List ℕ → List ℕ
written count anchor period = b'R' ∷ count ++ b'/' ∷ slashed (listed anchor period)

-- The digits that a count of repeats is read from: none where it is unbounded.
abbrev pub IsCountText : List ℕ → Option ℕ → Type 0
IsCountText ds none = ds ≡ []
IsCountText ds (some n) = magnitude ds ≡ some n

some_inj : {A : Type 0} {x y : A} → some x ≡ some y → x ≡ y
some_inj h = cc

-- A letter that was found, with what follows.
pub after-eq-some : (c : ℕ) (s rest : List ℕ) → after c s ≡ some rest → s ≡ c ∷ rest
unfolding after
after-eq-some c [] rest h = cc
after-eq-some c (d ∷ s) rest h = elim (Bool-cases (d == c)) [
  | inl e ↦ let same = (==_iff d c).0 e in cc (rw (e, after) at h, same)
  | inr e ↦ cc (rw (e, after) at h)
]

pub span_digits-append : (s : List ℕ) → s ≡ (span_digits s).0 ++ (span_digits s).1
unfolding span_digits
span_digits-append [] = refl
span_digits-append (c ∷ s) = elim (Bool-cases (is_digit c)) [
  | inl e ↦ rw e (ap (λ t. c ∷ t) (span_digits-append s))
  | inr e ↦ rw e refl
]

slashed-prepend :
    (c : ℕ) (ps : List (List ℕ))
    → slashed (elim ps [ [] ↦ (c ∷ []) ∷ [] | p ∷ qs ↦ (c ∷ p) ∷ qs ]) ≡ c ∷ slashed ps
slashed-prepend c [] = refl
slashed-prepend c (p ∷ []) = refl
slashed-prepend c (p ∷ q ∷ ps) = refl

slashed_slash : (ps : List (List ℕ)) → is_nil ps ≡ false → slashed ([] ∷ ps) ≡ b'/' ∷ slashed ps
slashed_slash [] h = cc
slashed_slash (p ∷ ps) h = refl

prepended-is_nil :
    (c : ℕ) (ps : List (List ℕ))
    → is_nil (elim ps [ [] ↦ (c ∷ []) ∷ [] | p ∷ qs ↦ (c ∷ p) ∷ qs ]) ≡ false
prepended-is_nil c [] = refl
prepended-is_nil c (p ∷ ps) = refl

split-is_nil : (s : List ℕ) → is_nil (split s) ≡ false
unfolding split
split-is_nil [] = refl
split-is_nil (c ∷ s) = elim (Bool-cases (c == b'/')) [
  | inl e ↦ rw e refl
  | inr e ↦ rw e (prepended-is_nil c (split s))
]

pub slashed-split : (s : List ℕ) → slashed (split s) ≡ s
unfolding split
slashed-split [] = refl
slashed-split (c ∷ s) = elim (Bool-cases (c == b'/')) [
  | inl e ↦ rw e (
      slashed_slash (split s) (split-is_nil s)
      ∙ ap (λ t. b'/' ∷ t) (slashed-split s)
      ∙ ap (λ d. d ∷ s) (sym ((==_iff c b'/').0 e)))
  | inr e ↦ rw e (slashed-prepend c (split s) ∙ ap (λ t. c ∷ t) (slashed-split s))
]

counted-magnitude : (o c : Option ℕ) → counted o ≡ good c → o ≡ c
unfolding counted
counted-magnitude none c h = cc
counted-magnitude (some n) c h = ground arith

counted-none : (o : Option ℕ) → counted o ≡ good none → o ≡ none → ⊥
unfolding counted
counted-none none h e = cc
counted-none (some n) h e = cc

pub repeat_count-IsCountText :
    (s : List ℕ) (c : Option ℕ) → repeat_count s ≡ good c → IsCountText s c
unfolding repeat_count
repeat_count-IsCountText [] none h = refl
repeat_count-IsCountText [] (some k) h = cc
repeat_count-IsCountText (d ∷ s) none h =
    absurd (counted-none (magnitude (d ∷ s)) h (counted-magnitude (magnitude (d ∷ s)) none h))
repeat_count-IsCountText (d ∷ s) (some n) h = counted-magnitude (magnitude (d ∷ s)) (some n) h

module _ (float : Float) where
  pub anchored-listed :
      (ps : List (List ℕ)) (a : Option (List ℕ)) (period : List ℕ)
      → anchored float ps ≡ good (a, period)
      → ps ≡ listed a period
  unfolding anchored
  anchored-listed [] a period h = cc
  anchored-listed (p ∷ []) none period h = ground arith
  anchored-listed (p ∷ []) (some s) period h = cc
  anchored-listed (p ∷ q ∷ []) none period h = ground arith
  anchored-listed (p ∷ q ∷ []) (some s) period h = ground arith
  anchored-listed (p ∷ q ∷ r ∷ ps) a period h = cc
