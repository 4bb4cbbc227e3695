-- ===== src/Condition/Decimals.antt =====
-- `compare_decimals` of condition.rs: two decimal numbers written as text, compared exactly. A text
-- is the list of its code points.
pub mod Order
use Prim.Native.Char.{code}
use Prim.Native.Nat.{compare, Ordering}
use mathlib.Core.List.{reverse}
use rbpmn.Common.{
  ℕ, zero, suc, ◌+◌, ◌-◌, ◌*◌, ◌^◌, String, Bool, true, false, ◌&&◌, ◌||◌, Option, none, some, List,
  [], ◌∷◌, ◌++◌, leb, ltb, ◌==◌, if◌then◌else◌, length, is_nil,
}
use rbpmn.Common.Int.{ℤ, pos, negsuc, ◌+ℤ◌, sub_ℕ, compare_ℤ}

abbrev pub codes : String → List ℕ
codes String.[] = []
codes (String.◌∷◌ c s) = code c ∷ codes s

unfoldable pub is_digit : ℕ → Bool
is_digit c = leb b'0' c && leb c b'9'

-- `char::is_whitespace`.
is_whitespace : ℕ → Bool
is_whitespace c =
    leb 9 c && leb c 13
    || c == 32
    || c == 0x85
    || c == 0xA0
    || c == 0x1680
    || leb 0x2000 c && leb c 0x200A
    || c == 0x2028
    || c == 0x2029
    || c == 0x202F
    || c == 0x205F
    || c == 0x3000

unfoldable pub trim_start_matches : (ℕ → Bool) → List ℕ → List ℕ
trim_start_matches p [] = []
trim_start_matches p (c ∷ s) = if p c then trim_start_matches p s else c ∷ s

unfoldable pub trim : List ℕ → List ℕ
unfolding is_whitespace trim_start_matches
trim s = reverse (trim_start_matches is_whitespace (reverse (trim_start_matches is_whitespace s)))

-- The text before and after the first character that passes, as `split_once` gives them.
split_once : (ℕ → Bool) → List ℕ → Option (List ℕ × List ℕ)
split_once p [] = none
split_once p (c ∷ s) =
    let rest = split_once p s in
    if p c then some ([], s) else elim rest [ none ↦ none | some (a, b) ↦ some (c ∷ a, b) ]

unfoldable pub all_digits : List ℕ → Bool
unfolding is_digit
all_digits [] = true
all_digits (c ∷ s) = is_digit c && all_digits s

unfoldable pub decimal_value : ℕ → List ℕ → ℕ
decimal_value n [] = n
decimal_value n (c ∷ s) = decimal_value (n * 10 + (c - 48)) s

-- The digits of `str::parse::<i64>`, none of them an error.
unfoldable pub magnitude : List ℕ → Option ℕ
unfolding all_digits decimal_value
magnitude s = if is_nil s then none else if all_digits s then some (decimal_value 0 s) else none

negated : ℕ → ℤ
negated n = sub_ℕ 0 n

parse_i64 : List ℕ → Option ℤ
unfolding magnitude negated
parse_i64 [] = none
parse_i64 (c ∷ s) =
    if c == b'-'
    then elim (magnitude s) [
      | none ↦ none
      | some n ↦ if leb n (2 ^ 63) then some (negated n) else none
    ]
    else elim (magnitude (if c == b'+' then s else c ∷ s)) [
      | none ↦ none
      | some n ↦ if ltb n (2 ^ 63) then some (pos n) else none
    ]

pub record DecimalParts : Type 0 where
  pub negative : Bool
  pub digits : List ℕ
  pub exponent : ℤ

-- The text after a sign, and whether the sign was `-`.
sign : List ℕ → Bool × List ℕ
sign [] = (false, [])
sign (c ∷ s) = if c == b'-' then (true, s) else if c == b'+' then (false, s) else (false, c ∷ s)

-- The mantissa and the exponent; `none` is an exponent that is no `i64`.
exponent_of : List ℕ → Option (List ℕ × ℤ)
unfolding split_once parse_i64
exponent_of s = elim (split_once (λ c. c == b'e' || c == b'E') s) [
  | none ↦ some (s, pos 0)
  | some (m, e) ↦ elim (parse_i64 e) [ none ↦ none | some n ↦ some (m, n) ]
]

fraction_of : List ℕ → List ℕ × List ℕ
unfolding split_once
fraction_of s = elim (split_once (λ c. c == b'.') s) [ none ↦ (s, []) | some p ↦ p ]

-- The trailing zeros off, the exponent raised by each, then the leading zeros off.
pub stripped : Bool → List ℕ → ℤ → DecimalParts
unfolding trim_start_matches
stripped negative digits exp =
    let kept = reverse (trim_start_matches (λ c. c == b'0') (reverse digits)) in
    let significant = trim_start_matches (λ c. c == b'0') kept in
    record {
      negative = negative;
      digits = significant;
      exponent = if is_nil significant then pos 0 else exp +ℤ sub_ℕ (length digits) (length kept);
    }

unfoldable pub decimal_parts : List ℕ → Option DecimalParts
unfolding trim sign exponent_of fraction_of all_digits stripped ◌+ℤ◌ negated
decimal_parts s =
    let (negative, rest) = sign (trim s) in
    elim (exponent_of rest) [
      | none ↦ none
      | some (mantissa, exp) ↦
          let (integer, fraction) = fraction_of mantissa in
          if is_nil integer && is_nil fraction
          then none
          else if all_digits (integer ++ fraction)
          then some (stripped negative (integer ++ fraction) (exp +ℤ negated (length fraction)))
          else none
    ]

-- `str`'s order, which is that of the code points.
unfoldable pub compare_text : List ℕ → List ℕ → Ordering
compare_text [] [] = Ordering.eq
compare_text [] (_ ∷ _) = Ordering.lt
compare_text (_ ∷ _) [] = Ordering.gt
compare_text (a ∷ s) (b ∷ t) =
    let rest = compare_text s t in
    elim (compare a b) [
      | Ordering.eq ↦ rest
      | Ordering.lt ↦ Ordering.lt
      | Ordering.gt ↦ Ordering.gt
    ]

unfoldable zeros : ℕ → List ℕ
zeros zero = []
zeros (suc n) = b'0' ∷ zeros n

-- `pad`: zeros up to the longer of the two.
unfoldable pad : List ℕ → ℕ → List ℕ
unfolding zeros
pad s width = s ++ zeros (width - length s)

unfoldable compare_magnitudes : List ℕ → ℤ → List ℕ → ℤ → Ordering
unfolding pad compare_text ◌+ℤ◌
compare_magnitudes a a_exp b b_exp =
    let width = if leb (length a) (length b) then length b else length a in
    let digits = compare_text (pad a width) (pad b width) in
    elim (compare_ℤ (pos (length a) +ℤ a_exp) (pos (length b) +ℤ b_exp)) [
      | Ordering.eq ↦ digits
      | Ordering.lt ↦ Ordering.lt
      | Ordering.gt ↦ Ordering.gt
    ]

abbrev pub reversed : Ordering → Ordering
reversed Ordering.lt = Ordering.gt
reversed Ordering.eq = Ordering.eq
reversed Ordering.gt = Ordering.lt

-- The order of two numbers taken apart; a zero has no digits and no sign.
unfoldable pub compare_parts : DecimalParts → DecimalParts → Ordering
unfolding compare_magnitudes
compare_parts a b =
    let magnitude_order = compare_magnitudes a.digits a.exponent b.digits b.exponent in
    if is_nil a.digits
    then (if is_nil b.digits then Ordering.eq else if b.negative then Ordering.gt else Ordering.lt)
    else if is_nil b.digits
    then (if a.negative then Ordering.lt else Ordering.gt)
    else if a.negative
    then (if b.negative then reversed magnitude_order else Ordering.lt)
    else if b.negative
    then Ordering.gt
    else magnitude_order

unfoldable pub compare_decimals : String → String → Option Ordering
unfolding decimal_parts compare_parts
compare_decimals a b = elim (decimal_parts (codes a)) [
  | none ↦ none
  | some p ↦ elim (decimal_parts (codes b)) [ none ↦ none | some q ↦ some (compare_parts p q) ]
]
