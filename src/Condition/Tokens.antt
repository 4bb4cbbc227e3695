-- ===== src/Condition/Tokens.antt =====
-- The tokens of a condition and the outcome of reading one.
use mathlib.Core.Path.{subst}
use rbpmn.Common.{ℕ, String, ◌≡◌, ◌≢◌, refl, Bool, true, false, List, if◌then◌else◌}
use rbpmn.Condition.{CmpOp, Literal}

pub data Tok : Type 0 where
  lparen rparen and or : Tok
  op : CmpOp → Tok
  name : List String → Tok
  lit : Literal → Tok

-- Each token with the byte offset that it starts at.
abbrev pub Tokens : Type 0
Tokens = List (ℕ × Tok)

-- The messages of `CondError`, without their prose.
pub data Message : Type 0 where
  condition_empty trailing_input end_of_input unclosed function_call operator_expected : Message
  literal_expected number_required atom_expected : Message
  bang arithmetic range_test unterminated unsupported_escape : Message
  fraction_digits exponent_digits name_expected unexpected_character : Message
  reserved : String → Message

-- `Result<A, CondError>`; `out_of_fuel` has no counterpart in the program.
pub data Parsed {ℓ} (A : Type ℓ) : Type ℓ where
  ok : A → Parsed A
  err : ℕ → Message → Parsed A
  out_of_fuel : Parsed A

infixl 1 ◌>>=◌
abbrev pub ◌>>=◌ {ℓ κ} : {A : Type ℓ} {B : Type κ} → Parsed A → (A → Parsed B) → Parsed B
ok a >>= f = f a
err o m >>= f = err o m
out_of_fuel >>= f = out_of_fuel

-- The run kept within its fuel, `P` holds of its value, if it has one, and `Q` of its offset
-- otherwise.
pub data Ensures {ℓ κ} {A : Type ℓ} (P : A → Type κ) (Q : ℕ → Type 0)
    : Parsed A → Type (ℓ ⊔ κ) where
  holds : {a : A} → P a → Ensures P Q (ok a)
  fails : {o : ℕ} {m : Message} → Q o → Ensures P Q (err o m)

module _ {ℓ κ} {A : Type ℓ} {P : A → Type κ} {Q : ℕ → Type 0} where
  pub Ensures-ok : {r : Parsed A} {a : A} → Ensures P Q r → r ≡ ok a → P a
  Ensures-ok (holds h) e = subst P (cc) h
  Ensures-ok (fails h) e = cc

  pub Ensures-err : {r : Parsed A} {o : ℕ} {m : Message} → Ensures P Q r → r ≡ err o m → Q o
  Ensures-err (holds h) e = cc
  Ensures-err (fails h) e = subst Q (cc) h

  pub Ensures-out_of_fuel : {r : Parsed A} → Ensures P Q r → r ≢ out_of_fuel
  Ensures-out_of_fuel (holds h) = cc
  Ensures-out_of_fuel (fails h) = cc

  pub Ensures-bind {ℓ' κ'} :
      {B : Type ℓ'} {R : B → Type κ'} {r : Parsed A} {f : A → Parsed B}
      → Ensures P Q r
      → ((a : A) → P a → Ensures R Q (f a))
      → Ensures R Q (r >>= f)
  Ensures-bind (holds {a} h) k = k a h
  Ensures-bind (fails h) k = fails h

pub Ensures-weaken {ℓ κ κ'} :
    {A : Type ℓ} {P : A → Type κ} {P' : A → Type κ'} {Q Q' : ℕ → Type 0} {r : Parsed A}
    → Ensures P Q r
    → ((a : A) → P a → P' a)
    → ((o : ℕ) → Q o → Q' o)
    → Ensures P' Q' r
Ensures-weaken (holds {a} h) p q = holds (p a h)
Ensures-weaken (fails {o} h) p q = fails (q o h)

pub Ensures-if {ℓ κ} :
    {A : Type ℓ} {P : A → Type κ} {Q : ℕ → Type 0} (b : Bool) {x y : Parsed A}
    → (b ≡ true → Ensures P Q x)
    → (b ≡ false → Ensures P Q y)
    → Ensures P Q (if b then x else y)
Ensures-if true h k = h refl
Ensures-if false h k = k refl
