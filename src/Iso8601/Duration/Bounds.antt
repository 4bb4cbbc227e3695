-- ===== src/Iso8601/Duration/Bounds.antt =====
-- What the parts of an accepted duration are.
use mathlib.Core.Path.{subst}
use rbpmn.Common.{
  ℕ, ◌≡◌, refl, sym, ◌∙◌, ap, ◌⊎◌, inl, inr, Bool, false, not, ◌&&◌, List, [], ◌∷◌, ◌==◌, is_nil,
  if◌then◌else◌, Option-cases, Bool-cases,
}
use rbpmn.Iso8601.Float.{Float}
use rbpmn.Iso8601.Texts.{good, refuse_if, span_digits, >>=-eq-good, refuse_if-eq-good, good_inj}
use rbpmn.Iso8601.Duration.{
  DurationUnit, years, months, days, hours, minutes, seconds, letter, is_seconds,
  component_value_ok, Scanned, number, after, DurationParts, zero_parts, same_unit, max_total_days,
  Scan, take_component, scan_unit, scan_units, scan_time, week_form, component_form, body_parts,
  duration_parts,
}
use rbpmn.Iso8601.Duration.Numbers.{
  not-false, IsNumber, component_value_ok-IsWhole, number-IsNumber, IsNumber-taken,
  same_unit-is_seconds,
}

module _ (float : Float) where
  open float use {F, of_digits, lit}

  -- No component, or one that was read.
  abbrev pub IsComponent : Bool → F → Type 0
  IsComponent b x = (x ≡ lit 0 1) ⊎ ((t : List ℕ) × (IsNumber b t × (x ≡ of_digits t)))

  abbrev pub HasUnits : DurationParts float → Type 0
  HasUnits p = (p.weeks ≡ lit 0 1) × ((u : DurationUnit) → IsComponent (is_seconds u) (p.part u))

  abbrev pub HasWeeks : DurationParts float → Type 0
  HasWeeks p = IsComponent false p.weeks × ((u : DurationUnit) → p.part u ≡ lit 0 1)

  counted-IsComponent :
      (u v : DurationUnit) (t : List ℕ) (old : F)
      → IsNumber (is_seconds u) t
      → IsComponent (is_seconds v) old
      → IsComponent (is_seconds v) (if same_unit v u then of_digits t else old)
  counted-IsComponent u v t old new kept = elim (Bool-cases (same_unit v u)) [
    | inr e ↦ rw (e) kept
    | inl e ↦
        rw (e) (inr (t, (subst (λ b. IsNumber b t) (sym (same_unit-is_seconds v u e)) new, refl)))
  ]

  take_component-HasUnits :
      (u : DurationUnit) (st st' : Scan float) (n : Scanned)
      → IsNumber n.has_fraction n.text
      → HasUnits st.parts
      → take_component float u st n ≡ good st'
      → HasUnits st'.parts
  unfolding take_component
  take_component-HasUnits u st st' n m k h = elim (Option-cases (after (letter u) n.rest)) [
    | inl e ↦ subst (λ s. HasUnits s.parts) (good_inj (rw (e, take_component) at h)) k
    | inr (rest, e) ↦
        let (_, ok, e') =
          >>=-eq-good (refuse_if (n.has_fraction && not (is_seconds u)) _) _
            (rw (e, take_component) at h) in
        let taken =
          IsNumber-taken (is_seconds u) n.has_fraction n.text (refuse_if-eq-good _ _ ok) m in
        subst (λ s. HasUnits s.parts) (good_inj e')
          (k.0, λ v. counted-IsComponent u v n.text (st.parts.part v) taken (k.1 v))
  ]

  scan_unit-HasUnits :
      (u : DurationUnit) (st st' : Scan float)
      → HasUnits st.parts
      → scan_unit float u st ≡ good st'
      → HasUnits st'.parts
  unfolding scan_unit
  scan_unit-HasUnits u st st' k h =
      let (n, found, e) = >>=-eq-good (number st.input) _ h in
      elim (Option-cases n) [
        | inl o ↦ subst (λ s. HasUnits s.parts) (good_inj (rw o at e)) k
        | inr (x, o) ↦
            take_component-HasUnits u st st' x (number-IsNumber st.input x (found ∙ ap good o)) k
              (rw o at e)
      ]

  scan_units-HasUnits :
      (us : List DurationUnit) (st st' : Scan float)
      → HasUnits st.parts
      → scan_units float us st ≡ good st'
      → HasUnits st'.parts
  unfolding scan_units
  scan_units-HasUnits [] st st' k h = subst (λ s. HasUnits s.parts) (good_inj h) k
  scan_units-HasUnits (u ∷ us) st st' k h =
      let (next, e, e') = >>=-eq-good (scan_unit float u st) _ h in
      scan_units-HasUnits us next st' (scan_unit-HasUnits u st next k e) e'

  scan_time-HasUnits :
      (st st' : Scan float) → HasUnits st.parts → scan_time float st ≡ good st' → HasUnits st'.parts
  unfolding scan_time
  scan_time-HasUnits st st' k h = elim (Option-cases (after b'T' st.input)) [
    | inl e ↦ subst (λ s. HasUnits s.parts) (good_inj (rw (e, scan_time) at h)) k
    | inr (rest, e) ↦
        let (found, scanned, e') =
          >>=-eq-good
            (scan_units float (hours ∷ minutes ∷ seconds ∷ []) (record st { input = rest })) _
            (rw (e, scan_time) at h) in
        let (_, _, e'') = >>=-eq-good (refuse_if (found.components == st.components) _) _ e' in
        subst (λ s. HasUnits s.parts) (good_inj e'')
          (scan_units-HasUnits (hours ∷ minutes ∷ seconds ∷ []) (record st { input = rest }) found k
            scanned)
  ]

  component_form-HasUnits :
      (s : List ℕ) (p : DurationParts float) → component_form float s ≡ good p → HasUnits p
  unfolding component_form
  component_form-HasUnits s p h =
      let st : Scan float = record {
        input = s;
        total = lit 0 1;
        parts = zero_parts float;
        components = 0;
      } in
      let (dated, e0, h0) = >>=-eq-good (scan_units float (years ∷ months ∷ days ∷ []) st) _ h in
      let (timed, e1, h1) = >>=-eq-good (scan_time float dated) _ h0 in
      let (_, _, h2) = >>=-eq-good (refuse_if (timed.components == 0) _) _ h1 in
      let (_, _, h3) = >>=-eq-good (refuse_if (not (is_nil timed.input)) _) _ h2 in
      let (_, _, h4) =
        >>=-eq-good (refuse_if (float.less (max_total_days float) timed.total) _) _ h3 in
      subst HasUnits (good_inj h4) (
        scan_time-HasUnits dated timed
          (scan_units-HasUnits (years ∷ months ∷ days ∷ []) st dated (refl, λ _. inl refl) e0) e1)

  week_form-HasWeeks :
      (whole rest : List ℕ) (p : DurationParts float)
      → week_form float whole rest ≡ good p
      → HasWeeks p
  unfolding week_form
  week_form-HasWeeks whole rest p h =
      let (_, ok, h0) = >>=-eq-good (refuse_if (not (component_value_ok whole)) _) _ h in
      let (_, _, h1) =
        >>=-eq-good
          (refuse_if (float.less (max_total_days float) (float.mul (of_digits whole) (lit 7 1))) _)
          _ h0 in
      let (_, _, h2) = >>=-eq-good (refuse_if (not (is_nil rest)) _) _ h1 in
      subst HasWeeks (good_inj h2) (
        inr (
          whole,
          (inl (component_value_ok-IsWhole whole (not-false _ (refuse_if-eq-good _ _ ok))), refl),
        ),
        λ _. refl,
      )

  body_parts_bounds :
      (s : List ℕ) (p : DurationParts float) → body_parts float s ≡ good p → HasWeeks p ⊎ HasUnits p
  unfolding body_parts
  body_parts_bounds s p h = elim (Option-cases (after b'W' (span_digits s).1)) [
    | inl e ↦ inr (component_form-HasUnits s p (rw (e, body_parts) at h))
    | inr (rest, e) ↦ elim (Bool-cases (is_nil (span_digits s).0)) [
      | inl e' ↦ inr (component_form-HasUnits s p (rw (e, e', body_parts) at h))
      | inr e' ↦ inl (week_form-HasWeeks (span_digits s).0 rest p (rw (e, e', body_parts) at h))
    ]
  ]

  -- An accepted duration has weeks alone or the other units alone, and each of these is zero or the
  -- value of a number of at most a million, of which the seconds may have a fraction, of at most
  -- nine digits.
  pub duration_parts_bounds :
      (s : List ℕ) (p : DurationParts float)
      → duration_parts float s ≡ good p
      → HasWeeks p ⊎ HasUnits p
  unfolding duration_parts
  duration_parts_bounds s p h = elim (Option-cases (after b'P' s)) [
    | inl e ↦ cc (rw (e, duration_parts) at h)
    | inr (rest, e) ↦ elim (Bool-cases (is_nil rest)) [
      | inl e' ↦ cc (rw (e, e', duration_parts) at h)
      | inr e' ↦ body_parts_bounds rest p (rw (e, e', duration_parts) at h)
    ]
  ]
