-- ===== src/Iso8601/Cycle.antt =====
-- `split_cycle`, `validate_cycle` and `fixed_length_seconds`.
pub mod Accepted
pub mod Pieces
use rbpmn.Common.{
  ℕ, ◌^◌, Bool, true, false, not, ◌&&◌, ◌||◌, Option, none, some, List, [], ◌∷◌, any, ltb, leb,
  ◌==◌, is_nil, if◌then◌else◌,
}
use rbpmn.Condition.Decimals.{magnitude}
use rbpmn.Iso8601.Float.{Float}
use rbpmn.Iso8601.Texts.{
  Complaint, Checked, good, bad, ◌>>=◌, ◌>>◌, refuse_if, span_digits, no_r, repeat_too_large,
  repeat_zero, no_slash, empty_component, duration_end_form, bad_anchor, too_many_parts,
  start_end_form, not_fixed, not_positive, too_short,
}
use rbpmn.Iso8601.Datetime.{validate_datetime}
use rbpmn.Iso8601.Duration.{
  after, max_component_value, DurationParts, DurationUnit, years, months, days, hours, minutes,
  seconds, duration_parts, validate_duration,
}

-- `split('/')`.
unfoldable pub split : List ℕ → List (List ℕ)
split [] = [] ∷ []
split (c ∷ s) =
    let rest = split s in
    if c == b'/' then [] ∷ rest else elim rest [ [] ↦ (c ∷ []) ∷ [] | p ∷ ps ↦ (c ∷ p) ∷ ps ]

abbrev pub is_good {ℓ} : {A : Type ℓ} → Checked A → Bool
is_good (good _) = true
is_good (bad _) = false

-- A repeat count that was read: not above the cap, not zero.
unfoldable pub counted : Option ℕ → Checked (Option ℕ)
counted none = bad repeat_too_large
counted (some n) = do
  refuse_if (not (ltb n (2 ^ 64) && leb n max_component_value)) repeat_too_large
  refuse_if (n == 0) repeat_zero
  good (some n)

-- The repeat count before the first slash; without digits it is unbounded.
unfoldable pub repeat_count : List ℕ → Checked (Option ℕ)
repeat_count whole = if is_nil whole then good none else counted (magnitude whole)

module _ (float : Float) where
  open float use {F, lit, add, mul, less, at_most}

  pub record CycleParts : Type 0 where
    pub repeats : Option ℕ
    pub anchor : Option (List ℕ)
    pub period : List ℕ
    pub period_seconds : F

  -- `p.weeks * 604_800.0 + …`, from the left.
  abbrev pub total_seconds : DurationParts float → F
  total_seconds p =
      add
        (add
          (add (add (mul p.weeks (lit 604800 1)) (mul (p.part days) (lit 86400 1)))
            (mul (p.part hours) (lit 3600 1)))
          (mul (p.part minutes) (lit 60 1)))
        (p.part seconds)

  unfoldable pub fixed_length_seconds : List ℕ → Checked F
  fixed_length_seconds period = do
    p ← duration_parts float period
    refuse_if (less (lit 0 1) (p.part years) || less (lit 0 1) (p.part months)) not_fixed
    refuse_if (at_most (total_seconds p) (lit 0 1)) not_positive
    good (total_seconds p)

  -- The anchor, if any, and the period.
  unfoldable pub anchored : List (List ℕ) → Checked (Option (List ℕ) × List ℕ)
  anchored (period ∷ []) = good (none, period)
  anchored (anchor ∷ period ∷ []) =
      if is_good (validate_datetime anchor)
      then good (some anchor, period)
      else if is_good (validate_duration float anchor)
      then bad duration_end_form
      else bad bad_anchor
  anchored _ = bad too_many_parts

  unfoldable pub split_rest : Option ℕ → List ℕ → Checked CycleParts
  split_rest repeats rest = do
    refuse_if (any is_nil (split rest)) empty_component
    p ← anchored (split rest)
    refuse_if (is_good (validate_datetime p.1)) start_end_form
    period_seconds ← fixed_length_seconds p.1
    refuse_if (less period_seconds (lit 60 1)) too_short
    good (record { repeats = repeats; anchor = p.0; period = p.1; period_seconds = period_seconds })

  unfoldable pub split_cycle : List ℕ → Checked CycleParts
  split_cycle s = elim (after b'R' s) [
    | none ↦ bad no_r
    | some text ↦ (do
      repeats ← repeat_count (span_digits text).0
      elim (after b'/' (span_digits text).1) [
        | none ↦ bad no_slash
        | some rest ↦ split_rest repeats rest
      ])
  ]

  unfoldable pub validate_cycle : List ℕ → Checked (Unit {0})
  validate_cycle s = split_cycle s >>= λ _. good tt
