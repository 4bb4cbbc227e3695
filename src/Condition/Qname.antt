-- ===== src/Condition/Qname.antt =====
-- `parse_qname`: a qualified name, its segments joined by points.
pub mod Names
pub mod Join
use Prim.Native.Char.{Char, code}
use rbpmn.Common.{ℕ, suc, ◌+◌, String, Bool, true, false, ◌&&◌, List, [], ◌∷◌, ◌==◌, if◌then◌else◌}
use rbpmn.Condition.Tokens.{name_expected, Parsed, ok, err, ◌>>=◌}
use rbpmn.Condition.Lexer.Chars.{bytes, starts_with, begins_name, continues_name}

abbrev pub prepend : Char → List String → List String
prepend c [] = String.◌∷◌ c String.[] ∷ []
prepend c (s ∷ ss) = String.◌∷◌ c s ∷ ss

-- `src.split('.')`.
unfoldable pub split : String → List String
split String.[] = String.[] ∷ []
split (String.◌∷◌ c s) =
    let rest = split s in if code c == b'.' then String.[] ∷ rest else prepend c rest

abbrev pub all_chars : (ℕ → Bool) → String → Bool
all_chars p String.[] = true
all_chars p (String.◌∷◌ c s) = p (code c) && all_chars p s

unfoldable pub valid : String → Bool
unfolding starts_with
valid s = starts_with begins_name s && all_chars continues_name s

-- The loop over the segments, the first at `offset`.
unfoldable pub segments : ℕ → List String → Parsed (List String)
unfolding valid
segments offset [] = ok []
segments offset (s ∷ ss) = elim (valid s) [
  | false ↦ err offset name_expected
  | true ↦ segments (offset + bytes s + 1) ss >>= λ path. ok (s ∷ path)
]

unfoldable pub parse_qname : String → Parsed (List String)
unfolding split segments
parse_qname src = segments 0 (split src)
