-- ===== src/Condition/Lexer/Bounds.antt =====
-- The offsets that `lex` gives, and that its fuel suffices.
use Prim.Native.Char.{Char, code}
use rbpmn.Common.{
  ℕ, zero, suc, ◌+◌, ◌≤◌, ◌<◌, ◌≡◌, String, true, List, [], ◌∷◌, arith, size, ◌==◌, Bool-cases, inl,
  inr, ◌||◌, same_text,
}
use rbpmn.Condition.{CmpOp, op_eq, op_lt, op_le, op_gt, op_ge}
use rbpmn.Condition.Decimals.{is_digit}
use rbpmn.Condition.Tokens.{Tokens, Ensures, holds, fails, Ensures-bind, Ensures-if, Ensures-weaken}
use rbpmn.Condition.Lexer.Chars.{
  width, bytes, starts, tail, starts_with, begins_name, continues_name, is_space, span,
}
use rbpmn.Condition.Lexer.{
  operator, not_equal, more_segments, is_reserved, word, name_token, qualified, token, lex,
}
use rbpmn.Condition.Lexer.Scans.{
  Within, ScansTo, is_digit-IsAscii, begins_name-IsAscii, continues_name-IsAscii, width_one,
  size-span, bytes-span, bytes-tail, size-tail,
}
use rbpmn.Condition.Lexer.Literals.Bounds.{
  text_literal-ScansTo, number_literal-ScansTo, minus-ScansTo,
}

operator-ScansTo :
    (short long : CmpOp) (start i hi n : ℕ) (s : String)
    → start < i
    → i + bytes s ≡ hi
    → size s < n
    → ScansTo start n hi (operator short long i s)
unfolding operator
operator-ScansTo short long start i hi n s l e m =
    Ensures-if (starts b'=' s)
      (λ h.
        let b = bytes-tail b'=' s h (omega arith) in
        let k = size-tail b'=' s h in
        holds (omega (arith, l), omega (arith, e, b), omega (arith, k, m)))
      (λ _. holds (l, e, m))

not_equal-ScansTo :
    (start i hi n : ℕ) (s : String)
    → start < i
    → i + bytes s ≡ hi
    → size s < n
    → ScansTo start n hi (not_equal start i s)
unfolding not_equal
not_equal-ScansTo start i hi n s l e m =
    Ensures-if (starts b'=' s)
      (λ h.
        let b = bytes-tail b'=' s h (omega arith) in
        let k = size-tail b'=' s h in
        holds (omega (arith, l), omega (arith, e, b), omega (arith, k, m)))
      (λ _. fails (omega arith, omega (arith, l, e)))

name_token-Ensures :
    (start hi : ℕ) (first : String) (segments : List String)
    → start < hi
    → Ensures (λ _. Unit {0}) (Within start hi) (name_token start first segments)
unfolding name_token word
name_token-Ensures start hi first [] k =
    Ensures-if (same_text first "and") (λ _. holds tt)
      λ _.
        Ensures-if (same_text first "or") (λ _. holds tt)
          λ _.
            Ensures-if (same_text first "true") (λ _. holds tt)
              λ _.
                Ensures-if (same_text first "false") (λ _. holds tt)
                  λ _.
                    Ensures-if (same_text first "null") (λ _. holds tt)
                      λ _.
                        Ensures-if (is_reserved first) (λ _. fails (omega arith, k)) λ _. holds tt
name_token-Ensures start hi first (s ∷ segments) k = holds tt

more_segments-ScansTo :
    (f lo i hi n : ℕ) (s : String)
    → i + bytes s ≡ hi
    → lo < i
    → size s < f
    → size s < n
    → ScansTo lo n hi (more_segments f i s)
unfolding more_segments
more_segments-ScansTo zero lo i hi n s e l g m = absurd (omega arith)
more_segments-ScansTo (suc f) lo i hi n s e l g m = elim (Bool-cases (starts b'.' s)) [
  | inr h ↦ rw (h, more_segments) (holds (l, e, m))
  | inl h ↦ elim (Bool-cases (starts_with begins_name (tail s))) [
    | inr q ↦
        rw (h, q, more_segments)
          (fails (omega (arith, l), omega (arith, e, bytes-tail b'.' s h (omega arith))))
    | inl q ↦
        let b = bytes-tail b'.' s h (omega arith) in
        let k = size-tail b'.' s h in
        let b' = bytes-span continues_name (tail s) continues_name-IsAscii in
        let k' = size-span continues_name (tail s) in
        rw (h, q, more_segments)
          (Ensures-bind
            (more_segments-ScansTo f lo (i + 1 + size (span continues_name (tail s)).0) hi n
              (span continues_name (tail s)).1 (omega (arith, e, b, b')) (omega (arith, l))
              (omega (arith, g, k, k')) (omega (arith, m, k, k')))
            λ (segments, j, rest) r. holds r)
  ]
]

size-span_first :
    (c : Char) (s : String)
    → begins_name (code c) ≡ true
    → size (span continues_name (String.◌∷◌ c s)).1 ≤ size s
unfolding span is_digit
size-span_first c s h =
    let k = size-span continues_name s in
    let m : continues_name (code c) ≡ true = ground (arith, h) in rw (m) (omega (arith, k))

qualified-ScansTo :
    (f start hi n : ℕ) (c : Char) (s : String)
    → begins_name (code c) ≡ true
    → start + (width c + bytes s) ≡ hi
    → size s < f
    → size s < n
    → ScansTo start n hi (qualified f start (String.◌∷◌ c s))
unfolding qualified
qualified-ScansTo f start hi n c s a e g m =
    let first = span continues_name (String.◌∷◌ c s) in
    let b = bytes-span continues_name (String.◌∷◌ c s) continues_name-IsAscii in
    let k = size-span continues_name (String.◌∷◌ c s) in
    let k' = size-span_first c s a in
    let one = width_one c (begins_name-IsAscii (code c) a) in
    Ensures-bind
      (more_segments-ScansTo f start (start + size first.0) hi n first.1 (omega (arith, e, b))
        (omega (arith, k, k')) (omega (arith, g, k')) (omega (arith, m, k')))
      λ (segments, j, rest) r.
        Ensures-bind (name_token-Ensures start hi first.0 segments (omega (arith, e, one)))
          λ t _. holds r

width_pos : (c : Char) → 1 ≤ width c
width_pos c = ground arith

token-ScansTo :
    (f start hi : ℕ) (c : Char) (s : String)
    → start + (width c + bytes s) ≡ hi
    → size s < f
    → ScansTo start (suc (size s)) hi (token f start c s)
unfolding token is_digit
token-ScansTo f start hi c s e g =
    let k = code c in
    let one : code c < 128 → start + 1 + bytes s ≡ hi = λ a. omega (arith, e, width_one c a) in
    let here : Within start hi start = (omega arith, omega (arith, e, width_pos c)) in
    Ensures-if (k == b'(') (λ h. holds (omega arith, one (ground (arith, h)), omega arith))
      λ _.
        Ensures-if (k == b')') (λ h. holds (omega arith, one (ground (arith, h)), omega arith))
          λ _.
            Ensures-if (k == b'=')
              (λ h.
                operator-ScansTo op_eq op_eq start (start + 1) hi (suc (size s)) s (omega arith)
                  (one (ground (arith, h))) (omega arith))
              λ _.
                Ensures-if (k == b'!')
                  (λ h.
                    not_equal-ScansTo start (start + 1) hi (suc (size s)) s (omega arith)
                      (one (ground (arith, h))) (omega arith))
                  λ _.
                    Ensures-if (k == b'<')
                      (λ h.
                        operator-ScansTo op_lt op_le start (start + 1) hi (suc (size s)) s
                          (omega arith) (one (ground (arith, h))) (omega arith))
                      λ _.
                        Ensures-if (k == b'>')
                          (λ h.
                            operator-ScansTo op_gt op_ge start (start + 1) hi (suc (size s)) s
                              (omega arith) (one (ground (arith, h))) (omega arith))
                          λ _.
                            Ensures-if (k == b'+' || k == b'*' || k == b'/' || k == b'%')
                              (λ _. fails here)
                              λ _.
                                Ensures-if (k == b'[' || k == b']') (λ _. fails here)
                                  λ _.
                                    Ensures-if (k == b'"')
                                      (λ h.
                                        Ensures-bind
                                          (text_literal-ScansTo start (start + 1) hi (suc (size s))
                                            s (one (ground (arith, h))) (omega arith) here.1
                                            (omega arith))
                                          λ (text, j, rest) r. holds r)
                                      λ _.
                                        Ensures-if (k == b'-')
                                          (λ h.
                                            minus-ScansTo start hi (suc (size s)) c s
                                              (ground (arith, h)) e (omega arith))
                                          λ _.
                                            Ensures-if (is_digit k)
                                              (λ h.
                                                number_literal-ScansTo start hi (suc (size s)) c s
                                                  (is_digit-IsAscii k h) e (omega arith))
                                              λ _.
                                                Ensures-if (begins_name k)
                                                  (λ h.
                                                    qualified-ScansTo f start hi (suc (size s)) c s
                                                      h e g (omega arith))
                                                  λ _. fails here

-- The tokens' offsets go up, from `lo` on and before `hi`.
abbrev pub Ascending : ℕ → ℕ → Tokens → Type 0
Ascending lo hi [] = Unit {0}
Ascending lo hi ((o, _) ∷ ts) = Within lo hi o × Ascending (suc o) hi ts

Ascending-le : (lo lo' hi : ℕ) (ts : Tokens) → lo ≤ lo' → Ascending lo' hi ts → Ascending lo hi ts
Ascending-le lo lo' hi [] l a = tt
Ascending-le lo lo' hi ((o, _) ∷ ts) l ((k, m), a) = ((omega (arith, l, k), m), a)

-- `lex` ends within a fuel of one for each character; the offsets of its tokens go up and stay in
-- the text, and the offset of its error, if it has one, is in the text.
pub lex-Ensures :
    (f i hi : ℕ) (s : String)
    → i + bytes s ≡ hi
    → size s ≤ f
    → Ensures (Ascending i hi) (Within i hi) (lex f i s)
unfolding lex
lex-Ensures f i hi String.[] e g = holds tt
lex-Ensures zero i hi (String.◌∷◌ c s) e g = absurd (omega (arith, g))
lex-Ensures (suc f) i hi (String.◌∷◌ c s) e g = elim (Bool-cases (is_space (code c))) [
  | inl h ↦
      rw (h, lex)
        (Ensures-weaken
          (lex-Ensures f (i + 1) hi s (omega (arith, e, width_one c (ground (arith, h))))
            (omega (arith, g)))
          (λ ts a. Ascending-le i (i + 1) hi ts (omega arith) a) (λ o w. (omega (arith, w), w.1)))
  | inr h ↦
      rw (h, lex)
        (Ensures-bind (token-ScansTo (suc f) i hi c s e (omega (arith, g)))
          λ (t, j, rest) (l, e', m).
            Ensures-bind
              (Ensures-weaken (lex-Ensures f j hi rest e' (omega (arith, g, m)))
                (λ ts a. Ascending-le (suc i) j hi ts l a) (λ o w. (omega (arith, w, l), w.1)))
              λ ts a. holds ((omega arith, omega (arith, e, width_pos c)), a))
]
