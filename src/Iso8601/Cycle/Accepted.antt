-- ===== src/Iso8601/Cycle/Accepted.antt =====
-- What `split_cycle` promises of the text that it accepts.
use mathlib.Core.Path.{subst}
use rbpmn.Common.{
  ℕ, ◌*◌, ◌≤◌, ◌≡◌, refl, sym, ap, ◌∙◌, inl, inr, Bool, true, false, ◌||◌, ◌++◌, Option, none, some,
  List, [], ◌∷◌, arith, any, is_nil, Option-cases,
}
use rbpmn.Iso8601.Float.{Float}
use rbpmn.Iso8601.Texts.{
  good, bad, ◌>>=◌, refuse_if, span_digits, no_slash, >>=-eq-good, refuse_if-eq-good, good_inj,
}
use rbpmn.Iso8601.Datetime.{validate_datetime}
use rbpmn.Iso8601.Duration.{
  after, DurationParts, years, months, days, hours, minutes, seconds, duration_parts,
}
use rbpmn.Condition.Decimals.{magnitude}
use rbpmn.Iso8601.Cycle.{
  CycleParts, is_good, counted, repeat_count, split, anchored, split_rest, split_cycle,
  fixed_length_seconds, total_seconds,
}
use rbpmn.Iso8601.Cycle.Pieces.{
  slashed, listed, written, IsCountText, after-eq-some, span_digits-append, slashed-split,
  repeat_count-IsCountText, anchored-listed,
}

-- A count of repeats: none, or one to a million.
abbrev pub IsCount : Option ℕ → Type 0
IsCount none = Unit {0}
IsCount (some n) = (1 ≤ n) × (n ≤ 1000000)

-- An anchor: none, or an accepted datetime.
abbrev pub IsAnchor : Option (List ℕ) → Type 0
IsAnchor none = Unit {0}
IsAnchor (some s) = is_good (validate_datetime s) ≡ true

counted-IsCount : (o c : Option ℕ) → counted o ≡ good c → IsCount c
unfolding counted
counted-IsCount none c h = cc
counted-IsCount (some n) none h = tt
counted-IsCount (some n) (some k) h = ground arith

repeat_count-IsCount : (s : List ℕ) (c : Option ℕ) → repeat_count s ≡ good c → IsCount c
unfolding repeat_count
repeat_count-IsCount [] none h = tt
repeat_count-IsCount [] (some k) h = cc
repeat_count-IsCount (d ∷ s) c h = counted-IsCount (magnitude (d ∷ s)) c h

module _ (float : Float) where
  open float use {F, lit, add, mul, less, at_most}

  anchored-IsAnchor :
      (ps : List (List ℕ)) (a : Option (List ℕ)) (period : List ℕ)
      → anchored float ps ≡ good (a, period)
      → IsAnchor a
  unfolding anchored
  anchored-IsAnchor [] a period h = cc
  anchored-IsAnchor (p ∷ []) none period h = tt
  anchored-IsAnchor (p ∷ []) (some s) period h = cc
  anchored-IsAnchor (p ∷ q ∷ []) none period h = tt
  anchored-IsAnchor (p ∷ q ∷ []) (some s) period h = ground arith
  anchored-IsAnchor (p ∷ q ∷ r ∷ ps) a period h = cc

  -- A duration of fixed length, in its seconds: weeks, days, hours, minutes and seconds alone.
  pub record IsFixed (period : List ℕ) (length : F) : Type 0 where
    pub parts : DurationParts float
    pub read : duration_parts float period ≡ good parts
    pub no_years : less (lit 0 1) (parts.part years) ≡ false
    pub no_months : less (lit 0 1) (parts.part months) ≡ false
    pub sum :
        length
        ≡ add
            (add
              (add
                (add
                  (mul parts.weeks (lit (7 * 24 * 60 * 60) 1))
                  (mul (parts.part days) (lit (24 * 60 * 60) 1)))
                (mul (parts.part hours) (lit (60 * 60) 1)))
              (mul (parts.part minutes) (lit 60 1)))
            (parts.part seconds)
    pub positive : at_most length (lit 0 1) ≡ false

  either_false : (a b : Bool) → (a || b) ≡ false → (a ≡ false) × (b ≡ false)
  either_false false b h = (refl, h)
  either_false true b h = cc

  fixed_length_seconds-IsFixed :
      (period : List ℕ) (length : F)
      → fixed_length_seconds float period ≡ good length
      → IsFixed period length
  unfolding fixed_length_seconds
  fixed_length_seconds-IsFixed period length h =
      let (p, read, e0) = >>=-eq-good (duration_parts float period) _ h in
      let (_, fixed, e1) =
        >>=-eq-good (refuse_if (less (lit 0 1) (p.part years) || less (lit 0 1) (p.part months)) _)
          _ e0 in
      let (_, positive, e2) =
        >>=-eq-good (refuse_if (at_most (total_seconds float p) (lit 0 1)) _) _ e1 in
      let (y, m) = either_false _ _ (refuse_if-eq-good _ _ fixed) in
      subst (IsFixed period) (good_inj e2) (record {
        parts = p;
        read = read;
        no_years = y;
        no_months = m;
        sum = refl;
        positive = refuse_if-eq-good _ _ positive;
      })

  -- The parts of an accepted cycle: a period of fixed length, a minute or more and no datetime.
  pub record IsRepeating (p : CycleParts float) : Type 0 where
    pub count : IsCount p.repeats
    pub phase : IsAnchor p.anchor
    pub fixed : IsFixed p.period p.period_seconds
    pub no_end : is_good (validate_datetime p.period) ≡ false
    pub long : float.less p.period_seconds (float.lit 60 1) ≡ false

  split_rest-IsRepeating :
      (c : Option ℕ) (rest : List ℕ) (p : CycleParts float)
      → IsCount c
      → split_rest float c rest ≡ good p
      → IsRepeating p × ((p.repeats ≡ c) × (rest ≡ slashed (listed p.anchor p.period)))
  unfolding split_rest
  split_rest-IsRepeating c rest p k h =
      let (_, _, e0) = >>=-eq-good (refuse_if (any is_nil (split rest)) _) _ h in
      let (q, cut, e1) = >>=-eq-good (anchored float (split rest)) _ e0 in
      let (_, no_end, e2) = >>=-eq-good (refuse_if (is_good (validate_datetime q.1)) _) _ e1 in
      let (length, fixed, e3) = >>=-eq-good (fixed_length_seconds float q.1) _ e2 in
      let (_, long, e4) = >>=-eq-good (refuse_if (float.less length (float.lit 60 1)) _) _ e3 in
      subst (λ r. IsRepeating r × ((r.repeats ≡ c) × (rest ≡ slashed (listed r.anchor r.period))))
        (good_inj e4)
        (
          record {
            count = k;
            phase = anchored-IsAnchor (split rest) q.0 q.1 cut;
            fixed = fixed_length_seconds-IsFixed q.1 length fixed;
            no_end = refuse_if-eq-good _ _ no_end;
            long = refuse_if-eq-good _ _ long;
          },
          (
            refl,
            sym (slashed-split rest) ∙ ap slashed (anchored-listed float (split rest) q.0 q.1 cut),
          ),
        )

  counts-IsRepeating :
      (text : List ℕ) (p : CycleParts float)
      → (repeat_count (span_digits text).0 >>= λ repeats. elim (after b'/' (span_digits text).1) [
        | none ↦ bad no_slash
        | some rest ↦ split_rest float repeats rest
      ])
        ≡ good p
      → IsRepeating p
        × IsCountText (span_digits text).0 p.repeats
        × (text ≡ (span_digits text).0 ++ b'/' ∷ slashed (listed p.anchor p.period))
  counts-IsRepeating text p h =
      let (c, counted, e) = >>=-eq-good (repeat_count (span_digits text).0) _ h in
      elim (Option-cases (after b'/' (span_digits text).1)) [
        | inl n ↦ cc (rw n at e)
        | inr (rest, n) ↦
            let (w, (same, cut)) =
              split_rest-IsRepeating c rest p (repeat_count-IsCount (span_digits text).0 c counted)
                (rw n at e) in
            (
              w,
              subst (IsCountText (span_digits text).0) (sym same)
                  (repeat_count-IsCountText (span_digits text).0 c counted),
              span_digits-append text
                  ∙ ap (λ t. (span_digits text).0 ++ t)
                      (after-eq-some b'/' (span_digits text).1 rest n ∙ ap (λ t. b'/' ∷ t) cut),
            )
      ]

  -- An accepted cycle is the text of a count, an anchor, if any, and a period, with slashes between
  -- them. It repeats without bound, where the count has no digits, or one to a million times; its
  -- anchor is an accepted datetime; and its period is no datetime but a duration without years and
  -- months, whose weeks, days, hours, minutes and seconds come to a minute or more.
  pub split_cycle-IsRepeating :
      (s : List ℕ) (p : CycleParts float)
      → split_cycle float s ≡ good p
      → (count : List ℕ) × ((s ≡ written count p.anchor p.period)
          × (IsCountText count p.repeats × IsRepeating p))
  unfolding split_cycle
  split_cycle-IsRepeating s p h = elim (Option-cases (after b'R' s)) [
    | inl n ↦ cc (rw (n, split_cycle) at h)
    | inr (text, n) ↦
        let (w, k, cut) = counts-IsRepeating text p (rw (n, split_cycle) at h) in
        ((span_digits text).0, (after-eq-some b'R' s text n ∙ ap (λ t. b'R' ∷ t) cut, (k, w)))
  ]
