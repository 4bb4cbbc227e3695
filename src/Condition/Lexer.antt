-- ===== src/Condition/Lexer.antt =====
-- `lex` and `read_segment`. A text is read by its characters and an offset counts its bytes, so a
-- character adds the length of its UTF-8. A scan returns what it read, the offset after it and the
-- text that is left.
pub mod Chars
pub mod Literals
pub mod Scans
pub mod Bounds
use Prim.Native.Char.{Char, code}
use rbpmn.Common.{
  ℕ, zero, suc, ◌+◌, String, Bool, true, false, not, ◌&&◌, ◌||◌, Option, none, some, List, [], ◌∷◌,
  leb, ltb, ◌==◌, if◌then◌else◌, same_text, size,
}
use rbpmn.Condition.{CmpOp, op_eq, op_ne, op_lt, op_le, op_gt, op_ge, Literal, null, bool, num, str}
use rbpmn.Condition.Decimals.{is_digit}
use rbpmn.Condition.Tokens.{
  Tok, lparen, rparen, and, or, op, name, lit, Tokens, bang, arithmetic, range_test, unterminated,
  unsupported_escape, fraction_digits, exponent_digits, name_expected, unexpected_character,
  reserved, Parsed, ok, err, out_of_fuel, ◌>>=◌,
}
use rbpmn.Condition.Lexer.Chars.{
  width, bytes, Scan, starts, tail, starts_with, is_alphabetic, begins_name, continues_name,
  is_space, span, append, is_empty,
}
use rbpmn.Condition.Lexer.Literals.{
  unescape, Part, part_of, push, text_literal, escape, fraction, signed, exponent, number_literal,
  minus, quote, backslash, plain,
}

-- An operator of one character, or of two with `=` after it; `i` is the offset after the first.
unfoldable pub operator : CmpOp → CmpOp → ℕ → String → Scan Tok
operator short long i s = if starts b'=' s then ok (op long, i + 1, tail s) else ok (op short, i, s)

unfoldable pub not_equal : ℕ → ℕ → String → Scan Tok
not_equal start i s = if starts b'=' s then ok (op op_ne, i + 1, tail s) else err start bang

-- The segments after the first, each after a point at `i`.
unfoldable pub more_segments : ℕ → ℕ → String → Scan (List String)
unfolding starts starts_with tail span
more_segments zero i s = out_of_fuel
more_segments (suc f) i s =
    let segment = span continues_name (tail s) in
    elim (starts b'.' s) [
      | false ↦ ok ([], i, s)
      | true ↦ elim (starts_with begins_name (tail s)) [
        | false ↦ err i name_expected
        | true ↦ more_segments f (i + 1 + size segment.0) segment.1 >>= λ (segments, j, rest).
            ok (segment.0 ∷ segments, j, rest)
      ]
    ]

abbrev pub is_reserved : String → Bool
is_reserved s =
    same_text s "in"
    || same_text s "between"
    || same_text s "not"
    || same_text s "instance"
    || same_text s "some"
    || same_text s "every"
    || same_text s "if"

-- The token of a name of one segment.
unfoldable pub word : ℕ → String → Parsed Tok
word start s =
    if same_text s "and"
    then ok and
    else if same_text s "or"
    then ok or
    else if same_text s "true"
    then ok (lit (bool true))
    else if same_text s "false"
    then ok (lit (bool false))
    else if same_text s "null"
    then ok (lit null)
    else if is_reserved s
    then err start (reserved s)
    else ok (name (s ∷ []))

unfoldable pub name_token : ℕ → String → List String → Parsed Tok
unfolding word
name_token start first [] = word start first
name_token start first (s ∷ segments) = ok (name (first ∷ s ∷ segments))

-- The name that begins at `start`.
unfoldable pub qualified : ℕ → ℕ → String → Scan Tok
unfolding span more_segments name_token
qualified f start s =
    let first = span continues_name s in
    do
      (segments, i, rest) ← more_segments f (start + size first.0) first.1
      t ← name_token start first.0 segments
      ok (t, i, rest)

-- The token that begins with `c` at `start`; `s` follows it.
unfoldable pub token : ℕ → ℕ → Char → String → Scan Tok
unfolding operator not_equal text_literal minus number_literal qualified
token f start c s =
    let k = code c in
    if k == b'('
    then ok (lparen, start + 1, s)
    else if k == b')'
    then ok (rparen, start + 1, s)
    else if k == b'='
    then operator op_eq op_eq (start + 1) s
    else if k == b'!'
    then not_equal start (start + 1) s
    else if k == b'<'
    then operator op_lt op_le (start + 1) s
    else if k == b'>'
    then operator op_gt op_ge (start + 1) s
    else if k == b'+' || k == b'*' || k == b'/' || k == b'%'
    then err start arithmetic
    else if k == b'[' || k == b']'
    then err start range_test
    else if k == b'"'
    then (text_literal start (start + 1) s >>= λ (text, i, rest). ok (lit (str text), i, rest))
    else if k == b'-'
    then minus start c s
    else if is_digit k
    then number_literal start c s
    else if begins_name k
    then qualified f start (String.◌∷◌ c s)
    else err start unexpected_character

-- The loop over the text, with the offset that it has come to.
unfoldable pub lex : ℕ → ℕ → String → Parsed Tokens
unfolding token
lex f i String.[] = ok []
lex zero i (String.◌∷◌ c s) = out_of_fuel
lex (suc f) i (String.◌∷◌ c s) = elim (is_space (code c)) [
  | true ↦ lex f (i + 1) s
  | false ↦ (do (t, j, rest) ← token (suc f) i c s; ts ← lex f j rest; ok ((i, t) ∷ ts))
]
