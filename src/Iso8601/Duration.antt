-- ===== src/Iso8601/Duration.antt =====
-- `validate_duration` and `duration_parts`.
pub mod Numbers
pub mod Bounds
use rbpmn.Common.{
  ℕ, ◌+◌, ◌-◌, ◌^◌, Bool, true, false, not, ◌&&◌, Option, none, some, List, [], ◌∷◌, ◌++◌, ltb, leb,
  ◌==◌, is_nil, length, if◌then◌else◌,
}
use rbpmn.Condition.Decimals.{magnitude}
use rbpmn.Iso8601.Float.{Float}
use rbpmn.Iso8601.Texts.{
  Complaint, Checked, good, bad, ◌>>=◌, ◌>>◌, refuse_if, span_digits, no_p, empty_duration,
  too_large, fraction_missing, total_too_large, week_combined, fraction_not_seconds,
  no_time_component, no_component, trailing,
}

abbrev pub max_component_value : ℕ
max_component_value = 1000000

abbrev pub max_component_digits : ℕ
max_component_digits = 9

pub data DurationUnit : Type 0 where
  years months days hours minutes seconds : DurationUnit

-- The letter of a unit.
abbrev pub letter : DurationUnit → ℕ
letter years = b'Y'
letter months = b'M'
letter days = b'D'
letter hours = b'H'
letter minutes = b'M'
letter seconds = b'S'

abbrev pub is_seconds : DurationUnit → Bool
is_seconds seconds = true
is_seconds _ = false

-- `parse::<u64>().is_ok_and(|v| v <= MAX_COMPONENT_VALUE)` of a run of digits.
unfoldable pub component_value_ok : List ℕ → Bool
component_value_ok s = elim (magnitude s) [
  | none ↦ false
  | some v ↦ ltb v (2 ^ 64) && leb v max_component_value
]

-- What the scan of a number found: the text, whether it has a fraction, and the rest.
pub record Scanned : Type 0 where
  pub text : List ℕ
  pub has_fraction : Bool
  pub rest : List ℕ

-- The fraction after the digits `whole`, if a point follows.
unfoldable pub with_fraction : List ℕ → List ℕ → Checked (Option Scanned)
with_fraction whole [] = good (some (record { text = whole; has_fraction = false; rest = [] }))
with_fraction whole (c ∷ s) =
    let p = span_digits s in
    if c == b'.'
    then (do
      refuse_if (is_nil p.0) fraction_missing
      refuse_if (ltb max_component_digits (length p.0)) too_large
      good (some (record { text = whole ++ c ∷ p.0; has_fraction = true; rest = p.1 })))
    else good (some (record { text = whole; has_fraction = false; rest = c ∷ s }))

-- The closure `number`.
unfoldable pub number : List ℕ → Checked (Option Scanned)
number s =
    let p = span_digits s in
    if is_nil p.0
    then good none
    else (do refuse_if (not (component_value_ok p.0)) too_large; with_fraction p.0 p.1)

-- A text that begins with a letter, and what follows it.
unfoldable pub after : ℕ → List ℕ → Option (List ℕ)
after c [] = none
after c (d ∷ s) = if d == c then some s else none

abbrev pub same_unit : DurationUnit → DurationUnit → Bool
same_unit years years = true
same_unit months months = true
same_unit days days = true
same_unit hours hours = true
same_unit minutes minutes = true
same_unit seconds seconds = true
same_unit _ _ = false

module _ (float : Float) where
  open float use {F, of_digits, lit, add, mul, div, less}

  pub record DurationParts : Type 0 where
    pub weeks : F
    pub part : DurationUnit → F

  abbrev pub zero_parts : DurationParts
  zero_parts = record { weeks = lit 0 1; part = λ _. lit 0 1 }

  -- The days of one unit, as the tables of the two loops give them.
  abbrev pub days_per : DurationUnit → F
  days_per years = lit 36525 100
  days_per months = lit 304375 10000
  days_per days = lit 1 1
  days_per hours = div (lit 1 1) (lit 24 1)
  days_per minutes = div (lit 1 1) (lit 1440 1)
  days_per seconds = div (lit 1 1) (lit 86400 1)

  abbrev pub max_total_days : F
  max_total_days = mul (lit 10000 1) (lit 36525 100)

  -- The variables of the two loops.
  pub record Scan : Type 0 where
    pub input : List ℕ
    pub total : F
    pub parts : DurationParts
    pub components : ℕ

  -- One component: its value counted, or, where another letter follows, the number put back.
  unfoldable pub take_component : DurationUnit → Scan → Scanned → Checked Scan
  take_component u st n = elim (after (letter u) n.rest) [
    | none ↦ good st
    | some rest ↦ (do
      refuse_if (n.has_fraction && not (is_seconds u)) fraction_not_seconds
      good (record {
        input = rest;
        total = add st.total (mul (of_digits n.text) (days_per u));
        parts = record (st.parts) {
          part = λ v. if same_unit v u then of_digits n.text else st.parts.part v;
        };
        components = st.components + 1;
      }))
  ]

  -- One round of a loop over the units.
  unfoldable pub scan_unit : DurationUnit → Scan → Checked Scan
  scan_unit u st =
      number st.input >>= λ n. elim n [ none ↦ good st | some found ↦ take_component u st found ]

  unfoldable pub scan_units : List DurationUnit → Scan → Checked Scan
  scan_units [] st = good st
  scan_units (u ∷ us) st = scan_unit u st >>= scan_units us

  -- The time components after `T`.
  unfoldable pub scan_time : Scan → Checked Scan
  scan_time st = elim (after b'T' st.input) [
    | none ↦ good st
    | some rest ↦ (do
      found ← scan_units (hours ∷ minutes ∷ seconds ∷ []) (record st { input = rest })
      refuse_if (found.components == st.components) no_time_component
      good found)
  ]

  -- `PnW`, nothing else.
  unfoldable pub week_form : List ℕ → List ℕ → Checked DurationParts
  week_form whole rest = do
    refuse_if (not (component_value_ok whole)) too_large
    refuse_if (less max_total_days (mul (of_digits whole) (lit 7 1))) total_too_large
    refuse_if (not (is_nil rest)) week_combined
    good (record zero_parts { weeks = of_digits whole })

  unfoldable pub component_form : List ℕ → Checked DurationParts
  component_form s = do
    dated ←
        scan_units (years ∷ months ∷ days ∷ [])
          (record { input = s; total = lit 0 1; parts = zero_parts; components = 0 })
    timed ← scan_time dated
    refuse_if (timed.components == 0) no_component
    refuse_if (not (is_nil timed.input)) trailing
    refuse_if (less max_total_days timed.total) total_too_large
    good timed.parts

  -- The digits that a week form begins with are not empty.
  unfoldable pub body_parts : List ℕ → Checked DurationParts
  body_parts s =
      let p = span_digits s in
      elim (after b'W' p.1) [
        | none ↦ component_form s
        | some rest ↦ if is_nil p.0 then component_form s else week_form p.0 rest
      ]

  unfoldable pub duration_parts : List ℕ → Checked DurationParts
  duration_parts s = elim (after b'P' s) [
    | none ↦ bad no_p
    | some rest ↦ if is_nil rest then bad empty_duration else body_parts rest
  ]

  unfoldable pub validate_duration : List ℕ → Checked (Unit {0})
  validate_duration s = duration_parts s >>= λ _. good tt
