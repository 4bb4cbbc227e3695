-- ===== src/Condition/Parser/Whole.antt =====
-- `parse`, from the text of a condition.
use rbpmn.Common.{ℕ, suc, ◌<◌, ◌≡◌, ◌≢◌, refl, ◌⊎◌, inl, inr, String, [], ◌∷◌, arith, size}
use rbpmn.Condition.Tokens.{
  Tokens, Message, err, out_of_fuel, Ensures, Ensures-err, Ensures-out_of_fuel, Ensures-bind,
  Ensures-weaken,
}
use rbpmn.Condition.Lexer.Chars.{bytes}
use rbpmn.Condition.Lexer.Bounds.{Ascending, lex-Ensures}
use rbpmn.Condition.Parser.{parse}
use rbpmn.Condition.Parser.Sound.{Offsets, parse_tokens-Ensures}
use rbpmn.Condition.Parser.Print.{IsWell, Disjunction-IsWell}

abbrev InText : String → ℕ → Type 0
InText src o = (o ≡ 0) ⊎ (o < bytes src)

Ascending-Offsets :
    (src : String) (lo : ℕ) (ts : Tokens) → Ascending lo (bytes src) ts → Offsets (InText src) ts
Ascending-Offsets src lo [] a = tt
Ascending-Offsets src lo ((o, _) ∷ ts) ((_, k), a) = (inr k, Ascending-Offsets src (suc o) ts a)

parse-Ensures : (src : String) → Ensures IsWell (InText src) (parse src)
unfolding parse
parse-Ensures src =
    Ensures-bind
      (Ensures-weaken (lex-Ensures (size src) 0 (bytes src) src (omega arith) (omega arith))
        (λ ts a. a) (λ o w. inr w.1))
      λ ts a.
        Ensures-weaken
          (parse_tokens-Ensures (InText src) ts (inl refl) (Ascending-Offsets src 0 ts a))
          (λ e d. Disjunction-IsWell ts e d) (λ o w. w)

-- Reading a condition ends within its fuel: it gives an expression or an error.
pub parse_fuel : (src : String) → parse src ≢ out_of_fuel
parse_fuel src = Ensures-out_of_fuel (parse-Ensures src)

-- An error is reported at an offset inside the text, or at 0.
pub parse_offset :
    (src : String) (o : ℕ) (m : Message) → parse src ≡ err o m → (o ≡ 0) ⊎ (o < bytes src)
parse_offset src o m h = Ensures-err (parse-Ensures src) h
