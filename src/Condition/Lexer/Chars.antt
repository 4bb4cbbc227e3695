-- ===== src/Condition/Lexer/Chars.antt =====
-- Characters and prefixes of a text: what `lex` tests and what its loops over bytes read.
use Prim.Native.Char.{Char, code}
use rbpmn.Common.{ℕ, ◌+◌, String, Bool, true, false, ◌&&◌, ◌||◌, leb, ltb, ◌==◌, if◌then◌else◌}
use rbpmn.Condition.Decimals.{is_digit}
use rbpmn.Condition.Tokens.{Parsed}

-- The bytes of a character in UTF-8, and of a text.
abbrev pub width : Char → ℕ
width c =
    if ltb (code c) 0x80
    then 1
    else if ltb (code c) 0x800
    then 2
    else if ltb (code c) 0x10000
    then 3
    else 4

abbrev pub bytes : String → ℕ
bytes String.[] = 0
bytes (String.◌∷◌ c s) = width c + bytes s

abbrev pub Scan {ℓ} : Type ℓ → Type ℓ
Scan A = Parsed (A × ℕ × String)

-- `bytes.get(i)` is this one.
unfoldable pub starts : ℕ → String → Bool
starts k String.[] = false
starts k (String.◌∷◌ c s) = code c == k

unfoldable pub tail : String → String
tail String.[] = String.[]
tail (String.◌∷◌ c s) = s

unfoldable pub starts_with : (ℕ → Bool) → String → Bool
starts_with p String.[] = false
starts_with p (String.◌∷◌ c s) = p (code c)

abbrev pub is_alphabetic : ℕ → Bool
is_alphabetic c = leb b'a' c && leb c b'z' || leb b'A' c && leb c b'Z'

abbrev pub begins_name : ℕ → Bool
begins_name c = is_alphabetic c || c == b'_'

abbrev pub continues_name : ℕ → Bool
continues_name c = is_alphabetic c || is_digit c || c == b'_'

-- Of the characters that one byte stands for, those that are white space; a byte of a longer
-- character does not begin one.
abbrev pub is_space : ℕ → Bool
is_space c = leb 9 c && leb c 13 || c == 32

-- The longest prefix whose characters pass, all of one byte each, and the text after it.
unfoldable pub span : (ℕ → Bool) → String → String × String
span p String.[] = (String.[], String.[])
span p (String.◌∷◌ c s) =
    let rest = span p s in
    if p (code c) then (String.◌∷◌ c rest.0, rest.1) else (String.[], String.◌∷◌ c s)

unfoldable pub append : String → String → String
append String.[] t = t
append (String.◌∷◌ c s) t = String.◌∷◌ c (append s t)

unfoldable pub is_empty : String → Bool
is_empty String.[] = true
is_empty (String.◌∷◌ _ _) = false
