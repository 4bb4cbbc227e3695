-- ===== src/Condition/Qname/Names.antt =====
-- The segments of a qualified name that `parse_qname` takes, by their characters.
use Prim.Native.Char.{code}
use rbpmn.Common.{
  ℕ, ◌≤◌, ◌≡◌, ◌⊎◌, refl, String, Bool, true, false, ◌&&◌, List, [], ◌∷◌, arith, inl,
}
use rbpmn.Condition.Decimals.{is_digit}
use rbpmn.Condition.Lexer.Chars.{begins_name, continues_name, starts_with}
use rbpmn.Condition.Qname.{all_chars, valid}

-- `[A-Z]`, `[a-z]`, `_`, and `[0-9]`, as code points.
abbrev pub IsNameStart : ℕ → Type 0
IsNameStart c = ((65 ≤ c) × (c ≤ 90)) ⊎ (((97 ≤ c) × (c ≤ 122)) ⊎ (c ≡ 95))

abbrev pub IsNamePart : ℕ → Type 0
IsNamePart c = IsNameStart c ⊎ ((48 ≤ c) × (c ≤ 57))

abbrev pub AreNameParts : String → Type 0
AreNameParts String.[] = Unit {0}
AreNameParts (String.◌∷◌ c s) = IsNamePart (code c) × AreNameParts s

-- `[A-Za-z_][A-Za-z0-9_]*`.
abbrev pub IsName : String → Type 0
IsName String.[] = ⊥
IsName (String.◌∷◌ c s) = IsNameStart (code c) × AreNameParts s

abbrev pub AreNames : List String → Type 0
AreNames [] = Unit {0}
AreNames (s ∷ ss) = IsName s × AreNames ss

begins-IsNameStart : (c : ℕ) → begins_name c ≡ true → IsNameStart c
begins-IsNameStart c h = ground (arith, h)

IsNameStart-begins : (c : ℕ) → IsNameStart c → begins_name c ≡ true
IsNameStart-begins c h = ground (arith, h)

continues-IsNamePart : (c : ℕ) → continues_name c ≡ true → IsNamePart c
unfolding is_digit
continues-IsNamePart c h = ground (arith, h)

IsNamePart-continues : (c : ℕ) → IsNamePart c → continues_name c ≡ true
unfolding is_digit
IsNamePart-continues c h = ground (arith, h)

pub both_true : (a b : Bool) → a && b ≡ true → (a ≡ true) × (b ≡ true)
both_true true b h = (refl, h)
both_true false b h = cc

parts-AreNameParts : (s : String) → all_chars continues_name s ≡ true → AreNameParts s
parts-AreNameParts String.[] h = tt
parts-AreNameParts (String.◌∷◌ c s) h =
    let (k, l) = both_true (continues_name (code c)) (all_chars continues_name s) h in
    (continues-IsNamePart (code c) k, parts-AreNameParts s l)

AreNameParts-parts : (s : String) → AreNameParts s → all_chars continues_name s ≡ true
AreNameParts-parts String.[] h = refl
AreNameParts-parts (String.◌∷◌ c s) (k, l) =
    rw (IsNamePart-continues (code c) k) (AreNameParts-parts s l)

pub valid-IsName : (s : String) → valid s ≡ true → IsName s
unfolding valid starts_with
valid-IsName String.[] h = cc
valid-IsName (String.◌∷◌ c s) h =
    let (k, l) = both_true (begins_name (code c)) (all_chars continues_name (String.◌∷◌ c s)) h in
    let (_, m) = both_true (continues_name (code c)) (all_chars continues_name s) l in
    (begins-IsNameStart (code c) k, parts-AreNameParts s m)

pub IsName-valid : (s : String) → IsName s → valid s ≡ true
unfolding valid starts_with
IsName-valid String.[] h = absurd h
IsName-valid (String.◌∷◌ c s) (k, l) =
    rw (IsNameStart-begins (code c) k) (AreNameParts-parts (String.◌∷◌ c s) (inl k, l))
