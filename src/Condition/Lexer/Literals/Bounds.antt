-- ===== src/Condition/Lexer/Literals/Bounds.antt =====
-- How far the scans of literals read.
use Prim.Native.Char.{Char, code}
use rbpmn.Common.{
  ℕ, ◌+◌, ◌≤◌, ◌<◌, ◌≡◌, refl, String, arith, size, ◌==◌, Bool-cases, Option-cases, ◌⊎◌, inl, inr,
  ◌||◌,
}
use rbpmn.Condition.Decimals.{is_digit}
use rbpmn.Condition.Tokens.{Ensures, holds, fails, Ensures-bind, Ensures-if}
use rbpmn.Condition.Lexer.Chars.{width, bytes, starts, tail, starts_with, span, append, is_empty}
use rbpmn.Condition.Lexer.Literals.{
  unescape, Part, quote, backslash, plain, part_of, push, text_literal, escape, fraction, signed,
  exponent, number_literal, minus,
}
use rbpmn.Condition.Lexer.Scans.{
  Within, ScansTo, is_digit-IsAscii, width_one, size-span, bytes-span, size-append, bytes-tail,
  size-tail, unescape-IsAscii, part_of-quote, part_of-backslash,
}

pub Part-cases : (p : Part) → (p ≡ quote) ⊎ ((p ≡ backslash) ⊎ (p ≡ plain))
Part-cases quote = inl refl
Part-cases backslash = inr (inl refl)
Part-cases plain = inr (inr refl)

mutual
  unfolding text_literal escape push

  pub text_literal-ScansTo :
      (start i hi n : ℕ) (s : String)
      → i + bytes s ≡ hi
      → start ≤ i
      → start < hi
      → size s ≤ n
      → ScansTo start n hi (text_literal start i s)
  text_literal-ScansTo start i hi n String.[] e l k m = fails (omega arith, k)
  text_literal-ScansTo start i hi n (String.◌∷◌ c s) e l k m =
      elim (Part-cases (part_of (code c))) [
        | inl q ↦
            rw (q, text_literal)
              (holds (
                omega (arith, l),
                omega (arith, e, width_one c (part_of-quote (code c) q)),
                omega (arith, m),
              ))
        | inr (inl q) ↦
            rw (q, text_literal)
              (escape-ScansTo start i hi n s
                (omega (arith, e, width_one c (part_of-backslash (code c) q))) l (omega (arith, m)))
        | inr (inr q) ↦
            rw (q, text_literal)
              (Ensures-bind
                (text_literal-ScansTo start (i + width c) hi n s (omega (arith, e))
                  (omega (arith, l)) k (omega (arith, m)))
                λ (text, j, rest) r. holds r)
      ]

  pub escape-ScansTo :
      (start i hi n : ℕ) (s : String)
      → i + (1 + bytes s) ≡ hi
      → start ≤ i
      → size s ≤ n
      → ScansTo start n hi (escape start i s)
  escape-ScansTo start i hi n String.[] e l m = fails (l, omega (arith, e))
  escape-ScansTo start i hi n (String.◌∷◌ c s) e l m = elim (Option-cases (unescape (code c))) [
    | inl q ↦ rw (q, escape) (fails (l, omega (arith, e)))
    | inr (d, q) ↦
        rw (q, escape)
          (Ensures-bind
            (text_literal-ScansTo start (i + 2) hi n s
              (omega (arith, e, width_one c (unescape-IsAscii (code c) d q))) (omega (arith, l))
              (omega (arith, e, l)) (omega (arith, m)))
            λ (text, j, rest) r. holds r)
  ]

-- A text that is read off the front of another, character for character.
abbrev pub Splits : ℕ → ℕ → String × String → Type 0
Splits b n (text, rest) = (size text + bytes rest ≡ b) × (size text + size rest ≡ n)

pub span_digits-Splits : (s : String) → Splits (bytes s) (size s) (span is_digit s)
span_digits-Splits s = (bytes-span is_digit s is_digit-IsAscii, size-span is_digit s)

pub fraction-Splits :
    (start hi : ℕ) (s : String)
    → start < hi
    → Ensures (Splits (bytes s) (size s)) (Within start hi) (fraction start s)
unfolding fraction
fraction-Splits start hi s k = elim (Bool-cases (starts b'.' s)) [
  | inr h ↦ rw (h) (holds (omega arith, omega arith))
  | inl h ↦ elim (Bool-cases (is_empty (span is_digit (tail s)).0)) [
    | inl q ↦ rw (h, q) (fails (omega arith, k))
    | inr q ↦
        let (b, n) = span_digits-Splits (tail s) in
        let b' = bytes-tail b'.' s h (omega arith) in
        let n' = size-tail b'.' s h in
        rw (h, q) (holds (omega (arith, b, b'), omega (arith, n, n')))
  ]
]

pub signed-Splits : (s : String) → Splits (bytes s) (size s) (signed s)
unfolding signed
signed-Splits String.[] = (omega arith, omega arith)
signed-Splits (String.◌∷◌ c s) = elim (Bool-cases (code c == b'+' || code c == b'-')) [
  | inr h ↦ rw (h) (omega arith, omega arith)
  | inl h ↦ rw (h) (omega (arith, width_one c (ground (arith, h))), omega arith)
]

pub exponent-Splits :
    (start hi : ℕ) (s : String)
    → start < hi
    → Ensures (Splits (bytes s) (size s)) (Within start hi) (exponent start s)
unfolding exponent
exponent-Splits start hi String.[] k = holds (omega arith, omega arith)
exponent-Splits start hi (String.◌∷◌ c s) k = elim (Bool-cases (code c == b'e' || code c == b'E')) [
  | inr h ↦ rw (h) (holds (omega arith, omega arith))
  | inl h ↦ elim (Bool-cases (is_empty (span is_digit (signed s).1).0)) [
    | inl q ↦ rw (h, q) (fails (omega arith, k))
    | inr q ↦
        let (b, n) = span_digits-Splits (signed s).1 in
        let (b', n') = signed-Splits s in
        let one = width_one c (ground (arith, h)) in
        let m = size-append (signed s).0 (span is_digit (signed s).1).0 in
        rw (h, q) (holds (omega (arith, b, b', m, one), omega (arith, n, n', m)))
  ]
]

pub number_literal-ScansTo :
    (start hi n : ℕ) (c : Char) (s : String)
    → code c < 128
    → start + (width c + bytes s) ≡ hi
    → size s < n
    → ScansTo start n hi (number_literal start c s)
unfolding number_literal
number_literal-ScansTo start hi n c s a e m =
    let (b, k) = span_digits-Splits s in
    let one = width_one c a in
    Ensures-bind (fraction-Splits start hi (span is_digit s).1 (omega (arith, e, one)))
      λ (point, rest) (b', k').
        Ensures-bind (exponent-Splits start hi rest (omega (arith, e, one)))
          λ (power, rest') (b'', k'').
            let l = size-append (span is_digit s).0 (append point power) in
            let l' = size-append point power in
            holds
              (omega arith, omega (arith, e, one, b, b', b'', l, l'), omega (arith, k, k', k'', m))

pub minus-ScansTo :
    (start hi n : ℕ) (c : Char) (s : String)
    → code c < 128
    → start + (width c + bytes s) ≡ hi
    → size s < n
    → ScansTo start n hi (minus start c s)
unfolding minus
minus-ScansTo start hi n c s a e m =
    Ensures-if (starts_with is_digit s) (λ _. number_literal-ScansTo start hi n c s a e m)
      (λ _. fails (omega arith, omega (arith, e, width_one c a)))
