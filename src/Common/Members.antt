-- ===== src/Common/Members.antt =====
-- Membership in a list, by position.
use mathlib.Core.Path.{◌≡◌, refl, ap, ◌∙◌, subst}
use mathlib.Core.Logic.{◌⊎◌, inl, inr}
use mathlib.Core.Bool.{Bool, true, false}
use mathlib.Core.List.{List, [], ◌∷◌, ◌++◌}
use rbpmn.Common.Tests.{if◌then◌else◌}
use rbpmn.Common.Lists.{filter}

pub data Among {A : Type 0} (x : A) : List A → Type 0 where
  first : {xs : List A} → Among x (x ∷ xs)
  later : {y : A} {xs : List A} → Among x xs → Among x (y ∷ xs)

pub Among-append :
    {A : Type 0} {x : A} {xs : List A} (ys : List A) → Among x xs → Among x (xs ++ ys)
Among-append ys first = first
Among-append ys (later h) = later (Among-append ys h)

pub Among-last : {A : Type 0} (x : A) (xs : List A) → Among x (xs ++ x ∷ [])
Among-last x [] = first
Among-last x (y ∷ xs) = later (Among-last x xs)

pub nowhere : {A B : Type 0} {x : A} → Among x [] → B
nowhere a = elim a [ ]

pub Among-append_last :
    {A : Type 0} {x : A} (xs : List A) (y : A) → Among x (xs ++ y ∷ []) → Among x xs ⊎ (x ≡ y)
Among-append_last [] y first = inr refl
Among-append_last [] y (later h) = nowhere h
Among-append_last (z ∷ xs) y first = inl first
Among-append_last (z ∷ xs) y (later h) = elim (Among-append_last xs y h) [
  | inl m ↦ inl (later m)
  | inr e ↦ inr e
]

-- The two places of a member.
pub Among-cons : {A : Type 0} {x y : A} {xs : List A} → Among x (y ∷ xs) → (x ≡ y) ⊎ Among x xs
Among-cons first = inl refl
Among-cons (later h) = inr h

-- What a filter keeps was there, and passes its test.
pub Among-filter :
    {A : Type 0} {x : A} (p : A → Bool) (xs : List A)
    → Among x (filter p xs)
    → Among x xs × (p x ≡ true)
Among-filter p [] h = nowhere h
Among-filter {A} {x} p (y ∷ ys) h = kept (p y) refl (Among-filter p ys) h
  where
    kept :
        (b : Bool)
        → p y ≡ b
        → (Among x (filter p ys) → Among x ys × (p x ≡ true))
        → Among x (if b then y ∷ filter p ys else filter p ys)
        → Among x (y ∷ ys) × (p x ≡ true)
    kept true e rest m = elim (Among-cons m) [
      | inl q ↦ (subst (λ z. Among x (z ∷ ys)) q first, ap p q ∙ e)
      | inr n ↦ (later (rest n).0, (rest n).1)
    ]
    kept false e rest m = (later (rest m).0, (rest m).1)
