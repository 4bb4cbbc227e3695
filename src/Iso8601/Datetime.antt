-- ===== src/Iso8601/Datetime.antt =====
-- `validate_datetime`.
pub mod Months
pub mod Calendar
use rbpmn.Common.{
  ℕ, ◌+◌, ◌%◌, Bool, not, ◌&&◌, ◌||◌, List, [], ◌∷◌, ltb, ◌==◌, is_nil, if◌then◌else◌,
}
use rbpmn.Iso8601.Texts.{
  Complaint, Checked, good, bad, ◌>>=◌, ◌>>◌, refuse_if, digits, expect, span_digits, year_zero,
  month_range, day_range, time_range, offset_range, offset_missing, fraction_missing, trailing,
}

pub record Stamp : Type 0 where
  pub year : ℕ
  pub month : ℕ
  pub day : ℕ
  pub hour : ℕ
  pub minute : ℕ
  pub second : ℕ

unfoldable pub month_days : ℕ → ℕ → ℕ
month_days year month =
    if month == 1
      || month == 3
      || month == 5
      || month == 7
      || month == 8
      || month == 10
      || month == 12
    then 31
    else if month == 4 || month == 6 || month == 9 || month == 11
    then 30
    else if month == 2
    then (if year % 4 == 0 && (not (year % 100 == 0) || year % 400 == 0) then 29 else 28)
    else 0

unfoldable pub stamp : List ℕ → Checked (Stamp × List ℕ)
stamp s = do
  year ← digits 4 0 s
  a ← expect b'-' year.1
  month ← digits 2 0 a
  b ← expect b'-' month.1
  day ← digits 2 0 b
  c ← expect b'T' day.1
  hour ← digits 2 0 c
  d ← expect b':' hour.1
  minute ← digits 2 0 d
  e ← expect b':' minute.1
  second ← digits 2 0 e
  good (
    record {
      year = year.0;
      month = month.0;
      day = day.0;
      hour = hour.0;
      minute = minute.0;
      second = second.0;
    },
    second.1,
  )

unfoldable pub in_range : Stamp → Checked (Unit {0})
in_range t = do
  refuse_if (t.year == 0) year_zero
  refuse_if (ltb t.month 1 || ltb 12 t.month) month_range
  refuse_if (ltb t.day 1 || ltb (month_days t.year t.month) t.day) day_range
  refuse_if (ltb 23 t.hour || ltb 59 t.minute || ltb 59 t.second) time_range

unfoldable pub fraction : List ℕ → Checked (List ℕ)
fraction [] = good []
fraction (c ∷ s) =
    if c == b'.'
    then (if is_nil (span_digits s).0 then bad fraction_missing else good (span_digits s).1)
    else good (c ∷ s)

unfoldable pub numeric_offset : List ℕ → Checked (List ℕ)
numeric_offset s = do
  hours ← digits 2 0 s
  a ← expect b':' hours.1
  minutes ← digits 2 0 a
  refuse_if (ltb 14 hours.0 || ltb 59 minutes.0) offset_range
  good minutes.1

unfoldable pub offset : List ℕ → Checked (List ℕ)
offset [] = bad offset_missing
offset (c ∷ s) =
    if c == b'Z'
    then good s
    else if c == b'+' || c == b'-'
    then numeric_offset s
    else bad offset_missing

unfoldable pub validate_datetime : List ℕ → Checked (Unit {0})
validate_datetime s = do
  t ← stamp s
  in_range t.0
  a ← fraction t.1
  rest ← offset a
  refuse_if (not (is_nil rest)) trailing
