-- ===== src/Examples/Texts.antt =====
-- The theorems on timer texts, conditions and qualified names at concrete texts.
use rbpmn.Common.{ℕ, ◌≡◌, ◌≢◌, ◌<◌, ◌⊎◌, ◌↔◌, refl, true, none, some, List, [], ◌∷◌, arith}
use rbpmn.Common.Maps.{get}
use rbpmn.Json.{Value, object, string}
use rbpmn.Json.Values.{member, end, get as get_member}
use rbpmn.Json.Paths.{resolve as resolve_path}
use rbpmn.Condition.{Expr, cmp, conj, nil, cons, op_eq, op_ge, num, str}
use rbpmn.Condition.Decimals.{codes, is_digit, all_digits, decimal_value, magnitude}
use rbpmn.Condition.Tokens.{name, op, lit, Tokens, ok, out_of_fuel, Ensures, bang}
use rbpmn.Condition.Lexer.Chars.{bytes, starts, tail, starts_with, span, append, is_empty}
use rbpmn.Condition.Lexer.{
  lex, operator, not_equal, more_segments, word, name_token, qualified, token,
}
use rbpmn.Condition.Lexer.Literals.{
  unescape, part_of, push, text_literal, escape, fraction, signed, exponent, number_literal, minus,
}
use rbpmn.Condition.Lexer.Scans.{Within}
use rbpmn.Condition.Lexer.Bounds.{Ascending, lex-Ensures}
use rbpmn.Condition.Parser.{
  close, compared, comparison, or_expr, or_more, and_expr, and_more, atom, finish, parse_tokens,
  parse,
}
use rbpmn.Condition.Parser.Grammar.{Disjunction}
use rbpmn.Condition.Parser.Complete.{parse_tokens_iff}
use rbpmn.Condition.Parser.Print.{emit, parse_tokens-emit}
use rbpmn.Condition.Parser.Whole.{parse_fuel, parse_offset}
use rbpmn.Condition.Qname.{parse_qname}
use rbpmn.Condition.Qname.Names.{AreNames}
use rbpmn.Condition.Qname.Join.{join, is_listed, parse_qname_iff}
use rbpmn.Iso8601.Texts.{Checked, good, bad, digits, expect, span_digits}
use rbpmn.Iso8601.Datetime.{
  Stamp, stamp, in_range, fraction as second_fraction, offset, numeric_offset, month_days,
  validate_datetime,
}
use rbpmn.Iso8601.Datetime.Months.{january}
use rbpmn.Iso8601.Datetime.Calendar.{
  IsMoment, dated, validate_datetime-IsMoment, validate_datetime-printed,
}
use rbpmn.Iso8601.Duration.{
  component_value_ok, with_fraction, number, after, take_component, scan_unit, scan_units,
  scan_time, week_form, component_form, body_parts, duration_parts, DurationParts, zero_parts,
}
use rbpmn.Iso8601.Duration.Bounds.{HasWeeks, HasUnits, duration_parts_bounds}
use rbpmn.Iso8601.Cycle.{
  CycleParts, split as split_slashes, counted, repeat_count, fixed_length_seconds, anchored,
  split_rest, split_cycle,
}
use rbpmn.Iso8601.Cycle.Pieces.{written, IsCountText}
use rbpmn.Iso8601.Cycle.Accepted.{IsCount, IsRepeating, split_cycle-IsRepeating}
use rbpmn.Process.{TimerSource, kind_cycle, variable}
use rbpmn.State
use rbpmn.State.{TimerId}
use rbpmn.Step.Outcome.{Advancer}
use rbpmn.Step.Arm.{armed, arm_timer}
use rbpmn.Step.Arm.Repeats.{cycle_timer, names_variable, arm_timer-split_cycle}
use rbpmn.Examples.{quotients, plain, order}

abbrev new_year : Stamp
new_year = record { year = 2030; month = 1; day = 31; hour = 8; minute = 0; second = 0 }

new_year-IsMoment : IsMoment new_year
new_year-IsMoment = record {
  year_in = (omega arith, omega arith);
  month_in = (omega arith, omega arith);
  day_in = (31, (january, (omega arith, omega arith)));
  time_in = (omega arith, omega arith, omega arith);
}

validate_datetime-printed_example : validate_datetime (dated new_year (b'Z' ∷ [])) ≡ good tt
validate_datetime-printed_example = validate_datetime-printed new_year new_year-IsMoment

validate_datetime-IsMoment_example :
    (t : Stamp) × (rest : List ℕ) × ((codes "2030-01-31T08:00:00Z" ≡ dated t rest) × IsMoment t)
unfolding validate_datetime stamp digits is_digit expect in_range month_days second_fraction offset
    numeric_offset
validate_datetime-IsMoment_example = validate_datetime-IsMoment (codes "2030-01-31T08:00:00Z") refl

-- The functions that a duration is read with, unfolded together.
unfoldable reads_duration : Unit {0}
unfolding is_digit all_digits decimal_value magnitude span_digits component_value_ok with_fraction
    number after take_component scan_unit scan_units scan_time week_form component_form body_parts
    duration_parts
reads_duration = tt

-- The value of a result that is known to be good.
abbrev value_of {ℓ} : {A : Type ℓ} → Checked A → A → A
value_of (good a) d = a
value_of (bad e) d = d

abbrev nothing : DurationParts quotients
nothing = zero_parts quotients

unfoldable half_day : DurationParts quotients
half_day = value_of (duration_parts quotients (codes "P2DT12H0.5S")) nothing

duration_parts_bounds_example : HasWeeks quotients half_day ⊎ HasUnits quotients half_day
unfolding reads_duration half_day
duration_parts_bounds_example = duration_parts_bounds quotients (codes "P2DT12H0.5S") half_day refl

abbrev no_cycle : CycleParts quotients
no_cycle = record { repeats = none; anchor = none; period = []; period_seconds = (0, 1) }

unfoldable reads_cycle : Unit {0}
unfolding reads_duration validate_datetime stamp digits expect in_range month_days second_fraction
    offset numeric_offset split_slashes counted repeat_count fixed_length_seconds anchored
    split_rest split_cycle
reads_cycle = tt

unfoldable hourly : CycleParts quotients
hourly = value_of (split_cycle quotients (codes "R3/PT1H")) no_cycle

split_cycle-IsRepeating_example :
    (count : List ℕ) × ((codes "R3/PT1H" ≡ written count hourly.anchor hourly.period)
      × (IsCountText count hourly.repeats × IsRepeating quotients hourly))
unfolding reads_cycle hourly
split_cycle-IsRepeating_example = split_cycle-IsRepeating quotients (codes "R3/PT1H") hourly refl

abbrev reminders : Value
reminders = object (member "every" (string "R3/PT1H") end)

abbrev started : Advancer
started = record { state = State.new; events = []; queue = []; scope = 0; reask = [] }

abbrev reminding : Advancer
reminding = record started { state = record State.new { variables = reminders } }

-- What `every` stands for there.
abbrev source : TimerSource
source = variable kind_cycle ("every" ∷ [])

arm_timer-split_cycle_example :
    (id : TimerId) × (b : Advancer) × ((arm_timer plain order 0 3 source reminding ≡ armed id b)
      × ((get id b.state.timers ≡ some (cycle_timer 3 0 "R3/PT1H" hourly.repeats))
          × IsCount hourly.repeats))
unfolding reads_cycle hourly resolve_path get_member
arm_timer-split_cycle_example =
    arm_timer-split_cycle plain order 0 3 source reminding "R3/PT1H" hourly (names_variable refl)
      refl

lex-Ensures_example : Ensures (Ascending 0 6) (Within 0 6) (lex 6 0 "a >= 1")
lex-Ensures_example = lex-Ensures 6 0 6 "a >= 1" refl (omega arith)

abbrev compared_tokens : Tokens
compared_tokens = (0, name ("a" ∷ [])) ∷ (2, op op_ge) ∷ (5, lit (num "1")) ∷ []

abbrev at_least_one : Expr
at_least_one = cmp ("a" ∷ []) op_ge (num "1")

parse_tokens_iff_example :
    (parse_tokens compared_tokens ≡ ok at_least_one) ↔ Disjunction compared_tokens at_least_one
parse_tokens_iff_example = parse_tokens_iff compared_tokens at_least_one

abbrev two_parts : Expr
two_parts = conj (cons at_least_one (cons (cmp ("b" ∷ []) op_eq (str "x")) nil))

parse_tokens-emit_example : parse_tokens (emit two_parts) ≡ ok two_parts
parse_tokens-emit_example = parse_tokens-emit two_parts (refl, (refl, (refl, tt)))

parse_fuel_example : parse "a >= 1" ≢ out_of_fuel
parse_fuel_example = parse_fuel "a >= 1"

-- The functions that a condition is read with, unfolded together.
unfoldable reads_condition : Unit {0}
unfolding is_digit starts tail starts_with span append is_empty operator not_equal unescape part_of
    push text_literal escape fraction signed exponent number_literal minus more_segments word
    name_token qualified token lex close compared comparison or_expr or_more and_expr and_more atom
    finish parse_tokens parse
reads_condition = tt

abbrev bang_at : ℕ
bang_at = 2

parse_offset_example : (bang_at ≡ 0) ⊎ (bang_at < bytes "a ! 1")
unfolding reads_condition
parse_offset_example = parse_offset "a ! 1" bang_at bang refl

parse_qname_iff_example : (parse_qname "order.id" ≡ ok ("order" ∷ "id" ∷ [])) ↔ (
    (join ("order" ∷ "id" ∷ []) ≡ "order.id")
    × (is_listed ("order" ∷ "id" ∷ []) ≡ true)
    × AreNames ("order" ∷ "id" ∷ []))
parse_qname_iff_example = parse_qname_iff "order.id" ("order" ∷ "id" ∷ [])
