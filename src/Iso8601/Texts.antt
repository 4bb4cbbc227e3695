-- ===== src/Iso8601/Texts.antt =====
-- What the validators of iso8601.rs share: a complaint or a value, and runs of digits. A text is the
-- list of its code points: where a byte of another character stands no validator accepts it, as none
-- accepts the character.
use rbpmn.Common.{
  ℕ, zero, suc, ◌+◌, ◌-◌, ◌*◌, Bool, List, [], ◌∷◌, ◌==◌, if◌then◌else◌, ◌≡◌, refl, true, false,
}
use rbpmn.Condition.Decimals.{is_digit}

-- The complaints, without their prose.
pub data Complaint : Type 0 where
  digits_expected char_expected : Complaint
  year_zero month_range day_range time_range offset_range offset_missing : Complaint
  fraction_missing trailing : Complaint
  no_p empty_duration too_large total_too_large week_combined : Complaint
  fraction_not_seconds no_time_component no_component : Complaint
  no_r repeat_too_large repeat_zero no_slash empty_component : Complaint
  duration_end_form bad_anchor too_many_parts start_end_form : Complaint
  not_fixed not_positive too_short : Complaint

pub data Checked {ℓ} (A : Type ℓ) : Type ℓ where
  good : A → Checked A
  bad : Complaint → Checked A

infixl 5 ◌>>=◌ ◌>>◌
abbrev pub ◌>>=◌ {ℓ κ} : {A : Type ℓ} {B : Type κ} → Checked A → (A → Checked B) → Checked B
good a >>= f = f a
bad e >>= f = bad e

abbrev pub ◌>>◌ {ℓ} : {B : Type ℓ} → Checked (Unit {0}) → Checked B → Checked B
m >> k = m >>= λ _. k

pub good_inj : {A : Type 0} {x y : A} → good x ≡ good y → x ≡ y
good_inj h = cc

-- Inversion of a chain that succeeded.
pub >>=-eq-good :
    {A B : Type 0} (m : Checked A) (f : A → Checked B) {b : B}
    → (m >>= f) ≡ good b
    → (a : A) × (m ≡ good a) × (f a ≡ good b)
>>=-eq-good (good a) f h = (a, refl, h)
>>=-eq-good (bad e) f h = cc

-- An early `return Err` where a test holds.
abbrev pub refuse_if : Bool → Complaint → Checked (Unit {0})
refuse_if b e = if b then bad e else good tt

pub refuse_if-eq-good : (b : Bool) (e : Complaint) → refuse_if b e ≡ good tt → b ≡ false
refuse_if-eq-good true e h = cc
refuse_if-eq-good false e h = refl

-- `n` digits: their value, with what was read before, and the rest.
unfoldable pub digits : ℕ → ℕ → List ℕ → Checked (ℕ × List ℕ)
digits zero acc s = good (acc, s)
digits (suc n) acc [] = bad digits_expected
digits (suc n) acc (c ∷ s) =
    let rest = digits n (acc * 10 + (c - 48)) s in if is_digit c then rest else bad digits_expected

unfoldable pub expect : ℕ → List ℕ → Checked (List ℕ)
expect c [] = bad char_expected
expect c (d ∷ s) = if d == c then good s else bad char_expected

-- The digits that a text begins with, and what follows them.
unfoldable pub span_digits : List ℕ → List ℕ × List ℕ
span_digits [] = ([], [])
span_digits (c ∷ s) =
    let rest = span_digits s in if is_digit c then (c ∷ rest.0, rest.1) else ([], c ∷ s)
