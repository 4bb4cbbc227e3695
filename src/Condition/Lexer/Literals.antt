-- ===== src/Condition/Lexer/Literals.antt =====
-- The literals of `lex`: strings with their escapes, and numbers.
pub mod Bounds
use Prim.Native.Char.{Char, code}
use rbpmn.Common.{
  ℕ, zero, suc, ◌+◌, String, Bool, true, false, not, ◌&&◌, ◌||◌, Option, none, some, List, [], ◌∷◌,
  leb, ltb, ◌==◌, if◌then◌else◌, same_text, size,
}
use rbpmn.Condition.{CmpOp, op_eq, op_ne, op_lt, op_le, op_gt, op_ge, Literal, null, bool, num, str}
use rbpmn.Condition.Decimals.{is_digit}
use rbpmn.Condition.Tokens.{
  Tok, lparen, rparen, and, or, op, name, lit, Tokens, bang, arithmetic, range_test, unterminated,
  unsupported_escape, fraction_digits, exponent_digits, name_expected, unexpected_character,
  reserved, Parsed, ok, err, out_of_fuel, ◌>>=◌,
}
use rbpmn.Condition.Lexer.Chars.{
  width, bytes, Scan, starts, tail, starts_with, is_alphabetic, begins_name, continues_name,
  is_space, span, append, is_empty,
}

unfoldable pub unescape : ℕ → Option Char
unescape c =
    if c == b'"'
    then some "\""
    else if c == b'\\'
    then some "\\"
    else if c == b'/'
    then some "/"
    else if c == b'n'
    then some "\n"
    else if c == b't'
    then some "\t"
    else if c == b'r'
    then some "\r"
    else none

-- What a character is to the loop over a string literal.
pub data Part : Type 0 where
  quote backslash plain : Part

unfoldable pub part_of : ℕ → Part
part_of c = if c == b'"' then quote else if c == b'\\' then backslash else plain

unfoldable pub push : Char → String × ℕ × String → Scan String
push c (text, i, rest) = ok (String.◌∷◌ c text, i, rest)

-- The string literal that began at `start`, past its quote.
unfoldable mutual
  unfolding push part_of unescape

  pub text_literal : ℕ → ℕ → String → Scan String
  text_literal start i String.[] = err start unterminated
  text_literal start i (String.◌∷◌ c s) = elim (part_of (code c)) [
    | quote ↦ ok (String.[], i + 1, s)
    | backslash ↦ escape start i s
    | plain ↦ text_literal start (i + width c) s >>= push c
  ]

  -- The escape whose backslash stands at `i`.
  pub escape : ℕ → ℕ → String → Scan String
  escape start i String.[] = err i unsupported_escape
  escape start i (String.◌∷◌ c s) = elim (unescape (code c)) [
    | none ↦ err i unsupported_escape
    | some d ↦ text_literal start (i + 2) s >>= push d
  ]

-- The digits after a point, if there is one.
unfoldable pub fraction : ℕ → String → Parsed (String × String)
unfolding starts tail span is_empty
fraction start s =
    let digits = span is_digit (tail s) in
    if starts b'.' s
    then (if is_empty digits.0
        then err start fraction_digits
        else ok (String.◌∷◌ "." digits.0, digits.1))
    else ok (String.[], s)

-- A sign, if there is one.
unfoldable pub signed : String → String × String
signed String.[] = (String.[], String.[])
signed (String.◌∷◌ c s) =
    if code c == b'+' || code c == b'-'
    then (String.◌∷◌ c String.[], s)
    else (String.[], String.◌∷◌ c s)

-- The sign and the digits after an `e`, if there is one.
unfoldable pub exponent : ℕ → String → Parsed (String × String)
unfolding span is_empty signed append
exponent start String.[] = ok (String.[], String.[])
exponent start (String.◌∷◌ c s) =
    let sign = signed s in
    let digits = span is_digit sign.1 in
    if code c == b'e' || code c == b'E'
    then (if is_empty digits.0
        then err start exponent_digits
        else ok (String.◌∷◌ c (append sign.0 digits.0), digits.1))
    else ok (String.[], String.◌∷◌ c s)

-- The rest of a number whose first character is `c`; the text is kept. `parse::<f64>` accepts every
-- text of this shape.
unfoldable pub number_literal : ℕ → Char → String → Scan Tok
unfolding span append fraction exponent
number_literal start c s = do
  let whole = span is_digit s
  (point, rest) ← fraction start whole.1
  (power, rest') ← exponent start rest
  let text = String.◌∷◌ c (append whole.0 (append point power))
  ok (lit (num text), start + size text, rest')

-- A `-` that begins no number is arithmetic.
unfoldable pub minus : ℕ → Char → String → Scan Tok
unfolding starts_with number_literal
minus start c s = if starts_with is_digit s then number_literal start c s else err start arithmetic
