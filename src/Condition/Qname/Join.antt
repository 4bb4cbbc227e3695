-- ===== src/Condition/Qname/Join.antt =====
-- The qualified names are the joins of names.
use Prim.Native.Char.{Char, code}
use mathlib.Core.Path.{subst}
use text.Mathlib.TextEquality.{Char-path}
use rbpmn.Common.{
  ==_iff, ℕ, ◌+◌, ◌≡◌, ◌↔◌, refl, sym, ◌∙◌, ap, String, Bool, true, false, List, [], ◌∷◌, ◌==◌,
  Bool-cases, inl, inr, arith,
}
use rbpmn.Condition.Decimals.{is_digit}
use rbpmn.Condition.Tokens.{Parsed, ok, err, out_of_fuel, ◌>>=◌}
use rbpmn.Condition.Lexer.Chars.{bytes, begins_name, continues_name, starts_with, append}
use rbpmn.Condition.Qname.Names.{AreNames, both_true, IsName-valid, valid-IsName}
use rbpmn.Condition.Qname.{prepend, split, all_chars, valid, segments, parse_qname}

unfoldable pub join : List String → String
unfolding append
join [] = String.[]
join (s ∷ []) = s
join (s ∷ t ∷ ts) = append s (String.◌∷◌ "." (join (t ∷ ts)))

abbrev pub is_listed : List String → Bool
is_listed [] = false
is_listed (_ ∷ _) = true

prepend-is_listed : (c : Char) (ss : List String) → is_listed (prepend c ss) ≡ true
prepend-is_listed c [] = refl
prepend-is_listed c (_ ∷ _) = refl

-- What `split` gives is not empty and joins back.
split-is_listed : (s : String) → is_listed (split s) ≡ true
unfolding split
split-is_listed String.[] = refl
split-is_listed (String.◌∷◌ c s) = elim (Bool-cases (code c == b'.')) [
  | inl h ↦ rw (h) refl
  | inr h ↦ rw (h) (prepend-is_listed c (split s))
]

join-prepend :
    (c : Char) (ss : List String)
    → is_listed ss ≡ true
    → join (prepend c ss) ≡ String.◌∷◌ c (join ss)
unfolding join append
join-prepend c [] h = cc
join-prepend c (s ∷ []) h = refl
join-prepend c (s ∷ t ∷ ss) h = refl

join_point :
    (c : Char) (ss : List String)
    → (code c == b'.') ≡ true
    → is_listed ss ≡ true
    → join (String.[] ∷ ss) ≡ String.◌∷◌ c (join ss)
unfolding join append
join_point c [] h l = cc
join_point c (s ∷ ss) h l =
    ap (λ d. String.◌∷◌ d (join (s ∷ ss))) (Char-path "." c (sym ((==_iff (code c) b'.').0 h)))

join-split : (s : String) → join (split s) ≡ s
unfolding join split
join-split String.[] = refl
join-split (String.◌∷◌ c s) = elim (Bool-cases (code c == b'.')) [
  | inl h ↦
      rw (h)
        (join_point c (split s) h (split-is_listed s) ∙ ap (λ t. String.◌∷◌ c t) (join-split s))
  | inr h ↦
      rw (h)
        (join-prepend c (split s) (split-is_listed s) ∙ ap (λ t. String.◌∷◌ c t) (join-split s))
]

-- A character of a name is no point.
no_point :
    (c : Char) (s : String)
    → all_chars continues_name (String.◌∷◌ c s) ≡ true
    → ((code c == b'.') ≡ false) × (all_chars continues_name s ≡ true)
unfolding is_digit
no_point c s h =
    let (k, l) = both_true (continues_name (code c)) (all_chars continues_name s) h in
    (ground (arith, k), l)

split-append :
    (s t : String)
    → all_chars continues_name s ≡ true
    → split (append s (String.◌∷◌ "." t)) ≡ s ∷ split t
unfolding split append
split-append String.[] t h = refl
split-append (String.◌∷◌ c s) t h =
    let (k, l) = no_point c s h in rw (k) (ap (prepend c) (split-append s t l))

split_name : (s : String) → all_chars continues_name s ≡ true → split s ≡ s ∷ []
unfolding split
split_name String.[] h = refl
split_name (String.◌∷◌ c s) h =
    let (k, l) = no_point c s h in rw (k) (ap (prepend c) (split_name s l))

valid-all_chars : (s : String) → valid s ≡ true → all_chars continues_name s ≡ true
unfolding valid
valid-all_chars s h = (both_true (starts_with begins_name s) (all_chars continues_name s) h).1

split-join : (s : String) (ss : List String) → AreNames (s ∷ ss) → split (join (s ∷ ss)) ≡ s ∷ ss
unfolding join
split-join s [] (v, _) = split_name s (valid-all_chars s (IsName-valid s v))
split-join s (t ∷ ts) (v, w) =
    split-append s (join (t ∷ ts)) (valid-all_chars s (IsName-valid s v))
    ∙ ap (λ r. s ∷ r) (split-join t ts w)

segments-AreNames : (offset : ℕ) (ss : List String) → AreNames ss → segments offset ss ≡ ok ss
unfolding segments
segments-AreNames offset [] w = refl
segments-AreNames offset (s ∷ ss) (v, w) =
    rw (IsName-valid s v, segments) (rw (segments-AreNames (offset + bytes s + 1) ss w) refl)

-- A chain that succeeded.
>>=-eq-ok :
    {A B : Type 0} (m : Parsed A) (f : A → Parsed B) {b : B}
    → (m >>= f) ≡ ok b
    → (a : A) × ((m ≡ ok a) × (f a ≡ ok b))
>>=-eq-ok (ok a) f h = (a, (refl, h))
>>=-eq-ok (err o m) f h = cc
>>=-eq-ok out_of_fuel f h = cc

ok_inj : {A : Type 0} {x y : A} → ok x ≡ ok y → x ≡ y
ok_inj h = cc

segments-ok :
    (offset : ℕ) (ss path : List String) → segments offset ss ≡ ok path → (path ≡ ss) × AreNames ss
unfolding segments
segments-ok offset [] path h = (sym (ok_inj h), tt)
segments-ok offset (s ∷ ss) path h = elim (Bool-cases (valid s)) [
  | inr v ↦ cc (rw (v, segments) at h)
  | inl v ↦
      let (p, (e, e')) = >>=-eq-ok (segments (offset + bytes s + 1) ss) _ (rw (v, segments) at h) in
      let (same, w) = segments-ok (offset + bytes s + 1) ss p e in
      (sym (ok_inj e') ∙ ap (λ r. s ∷ r) same, (valid-IsName s v, w))
]

-- A text is read as a qualified name exactly where it joins a name or more by points, each a letter
-- or an underscore, of ASCII, with letters, underscores and digits after it; and what is read is
-- those names.
pub parse_qname_iff :
    (src : String) (path : List String)
    → (parse_qname src ≡ ok path) ↔ ((join path ≡ src) × (is_listed path ≡ true) × AreNames path)
unfolding parse_qname
parse_qname_iff src path = (read, back path)
  where
    read : parse_qname src ≡ ok path → (join path ≡ src) × (is_listed path ≡ true) × AreNames path
    read h =
        let (same, w) = segments-ok 0 (split src) path h in
        (
          ap join same ∙ join-split src,
          ap is_listed same ∙ split-is_listed src,
          subst AreNames (sym same) w,
        )

    back :
        (path : List String)
        → (join path ≡ src) × (is_listed path ≡ true) × AreNames path
        → parse_qname src ≡ ok path
    back [] (_, l, _) = cc
    back (s ∷ ss) (e, _, w) =
        subst (λ t. segments 0 t ≡ ok (s ∷ ss)) (sym (split-join s ss w) ∙ ap split e)
          (segments-AreNames 0 (s ∷ ss) w)
