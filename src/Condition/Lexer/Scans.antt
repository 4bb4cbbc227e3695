-- ===== src/Condition/Lexer/Scans.antt =====
-- What a scan of `lex` leaves of its text, in characters and in bytes.
use Prim.Native.Char.{Char, code}
use rbpmn.Common.{
  ℕ, ◌+◌, ◌≤◌, ◌<◌, ◌≡◌, refl, String, Bool, true, some, arith, size, Bool-cases, inl, inr,
}
use rbpmn.Condition.Decimals.{is_digit}
use rbpmn.Condition.Tokens.{Ensures}
use rbpmn.Condition.Lexer.Chars.{
  width, bytes, Scan, starts, tail, begins_name, continues_name, span, append,
}
use rbpmn.Condition.Lexer.Literals.{unescape, quote, backslash, part_of}

-- An offset from `lo` on and before `hi`.
abbrev pub Within : ℕ → ℕ → ℕ → Type 0
Within lo hi o = (lo ≤ o) × (o < hi)

-- A scan that ends past `lo`, where fewer than `n` characters are left, up to the offset `hi`.
abbrev pub Leaves {ℓ} : {A : Type ℓ} → ℕ → ℕ → ℕ → A × ℕ × String → Type 0
Leaves lo n hi (a, j, rest) = (lo < j) × (j + bytes rest ≡ hi) × (size rest < n)

abbrev pub ScansTo {ℓ} : {A : Type ℓ} → ℕ → ℕ → ℕ → Scan A → Type ℓ
ScansTo lo n hi = Ensures (Leaves lo n hi) (Within lo hi)

-- Characters of one byte.
abbrev pub IsAscii : (ℕ → Bool) → Type 0
IsAscii p = (c : ℕ) → p c ≡ true → c < 128

pub is_digit-IsAscii : IsAscii is_digit
unfolding is_digit
is_digit-IsAscii c h = ground arith

pub begins_name-IsAscii : IsAscii begins_name
begins_name-IsAscii c h = ground arith

pub continues_name-IsAscii : IsAscii continues_name
unfolding is_digit
continues_name-IsAscii c h = ground arith

pub width_one : (c : Char) → code c < 128 → width c ≡ 1
width_one c h = ground arith

pub size-span : (p : ℕ → Bool) (s : String) → size (span p s).0 + size (span p s).1 ≡ size s
unfolding span
size-span p String.[] = omega arith
size-span p (String.◌∷◌ c s) = elim (Bool-cases (p (code c))) [
  | inl h ↦ rw (h) (omega (arith, size-span p s))
  | inr h ↦ rw (h) (omega arith)
]

pub bytes-span :
    (p : ℕ → Bool) (s : String) → IsAscii p → size (span p s).0 + bytes (span p s).1 ≡ bytes s
unfolding span
bytes-span p String.[] a = refl
bytes-span p (String.◌∷◌ c s) a = elim (Bool-cases (p (code c))) [
  | inl h ↦ rw (h) (rw (width_one c (a (code c) h)) (omega (arith, bytes-span p s a)))
  | inr h ↦ rw (h) (omega arith)
]

pub size-append : (s t : String) → size (append s t) ≡ size s + size t
unfolding append
size-append String.[] t = omega arith
size-append (String.◌∷◌ c s) t = omega (arith, size-append s t)

pub bytes-tail : (k : ℕ) (s : String) → starts k s ≡ true → k < 128 → 1 + bytes (tail s) ≡ bytes s
unfolding starts tail
bytes-tail k String.[] h l = cc
bytes-tail k (String.◌∷◌ c s) h l = rw (width_one c (ground (arith, h))) refl

pub size-tail : (k : ℕ) (s : String) → starts k s ≡ true → 1 + size (tail s) ≡ size s
unfolding starts tail
size-tail k String.[] h = cc
size-tail k (String.◌∷◌ c s) h = omega arith

pub unescape-IsAscii : (c : ℕ) (d : Char) → unescape c ≡ some d → c < 128
unfolding unescape
unescape-IsAscii c d h = ground arith

pub part_of-quote : (c : ℕ) → part_of c ≡ quote → c < 128
unfolding part_of
part_of-quote c h = ground arith

pub part_of-backslash : (c : ℕ) → part_of c ≡ backslash → c < 128
unfolding part_of
part_of-backslash c h = ground arith
