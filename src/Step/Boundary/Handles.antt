-- ===== src/Step/Boundary/Handles.antt =====
-- `ExecutableProcess::error_boundary` (compile.rs) against a relation: the boundaries of a host, by
-- the codes that they are declared for.
use mathlib.Core.Path.{subst}
use rbpmn.Common.{
  ◌≡◌, ◌↔◌, refl, sym, ap, ◌∙◌, Bool, true, false, Option, none, some, List, [], ◌∷◌, String, find,
  is_none, or_else, Option-cases, Bool-cases, inl, inr, same_text_iff,
}
use rbpmn.Process.{
  NodeIx, ExecutableProcess, error_boundary_for, exact_match, has_code, boundary_of,
}

abbrev pub Candidates : Type 0
Candidates = List (Option String × NodeIx)

-- The first candidate whose code is as asked.
pub data FirstFor (P : Option String → Type 0) : Candidates → NodeIx → Type 0 where
  here : {k : Option String} {b : NodeIx} {cs : Candidates} → P k → FirstFor P ((k, b) ∷ cs) b
  past :
      {k : Option String} {b c : NodeIx} {cs : Candidates}
      → (P k → ⊥)
      → FirstFor P cs b
      → FirstFor P ((k, c) ∷ cs) b

abbrev pub NoneFor : (Option String → Type 0) → Candidates → Type 0
NoneFor P [] = Unit
NoneFor P (e ∷ cs) = (P e.0 → ⊥) × NoneFor P cs

-- A candidate takes an error: the first that is declared for exactly its code, or, where none is,
-- the first that is declared for no code.
pub data Handles (cs : Candidates) (code : Option String) (b : NodeIx) : Type 0 where
  coded : {c : String} → code ≡ some c → FirstFor (λ k. k ≡ some c) cs b → Handles cs code b
  catch_all :
      ((c : String) → code ≡ some c → NoneFor (λ k. k ≡ some c) cs)
      → FirstFor (λ k. k ≡ none) cs b
      → Handles cs code b

some_inj : {A : Type 0} {x y : A} → some x ≡ some y → x ≡ y
some_inj h = cc

module _ (p : Option String → Bool) (P : Option String → Type 0)
    (holds : (k : Option String) → (p k ≡ true) ↔ P k) where
  fails : (k : Option String) → p k ≡ false → P k → ⊥
  fails k e h = let t = (holds k).1 h in cc

  find-FirstFor :
      (cs : Candidates) (b : NodeIx) → boundary_of (find (λ e. p e.0) cs) ≡ some b → FirstFor P cs b
  find-FirstFor [] b h = cc
  find-FirstFor ((k, c) ∷ cs) b h = elim (Bool-cases (p k)) [
    | inl e ↦ subst (FirstFor P ((k, c) ∷ cs)) (some_inj (rw e at h)) (here ((holds k).0 e))
    | inr e ↦ past (fails k e) (find-FirstFor cs b (rw e at h))
  ]

  FirstFor-find :
      {cs : Candidates} {b : NodeIx} → FirstFor P cs b → boundary_of (find (λ e. p e.0) cs) ≡ some b
  FirstFor-find (here {k} h) = rw ((holds k).1 h) refl
  FirstFor-find (past {k} n f) = elim (Bool-cases (p k)) [
    | inl e ↦ absurd (n ((holds k).0 e))
    | inr e ↦ rw e (FirstFor-find f)
  ]

  find-NoneFor : (cs : Candidates) → find (λ e. p e.0) cs ≡ none → NoneFor P cs
  find-NoneFor [] h = tt
  find-NoneFor ((k, c) ∷ cs) h = elim (Bool-cases (p k)) [
    | inl e ↦ cc (rw e at h)
    | inr e ↦ (fails k e, find-NoneFor cs (rw e at h))
  ]

  NoneFor-find : (cs : Candidates) → NoneFor P cs → find (λ e. p e.0) cs ≡ none
  NoneFor-find [] h = refl
  NoneFor-find ((k, c) ∷ cs) (n, h) = elim (Bool-cases (p k)) [
    | inl e ↦ absurd (n ((holds k).0 e))
    | inr e ↦ rw e (NoneFor-find cs h)
  ]

has_code-exact : (c : String) (k : Option String) → (has_code c k ≡ true) ↔ (k ≡ some c)
has_code-exact c none = (λ h. cc, λ h. cc)
has_code-exact c (some k) =
    (λ h. ap some ((same_text_iff k c).0 h), λ h. (same_text_iff k c).1 (some_inj h))

is_none-exact : (k : Option String) → (is_none k ≡ true) ↔ (k ≡ none)
is_none-exact none = (λ _. refl, λ _. refl)
is_none-exact (some k) = (λ h. cc, λ h. cc)

or_else_found :
    (o p : Option (Option String × NodeIx)) (b : NodeIx)
    → boundary_of o ≡ some b
    → boundary_of (or_else o p) ≡ some b
or_else_found none p b h = cc
or_else_found (some x) p b h = h

-- `error_boundary_for` on the candidates of a host.
chosen : Candidates → Option String → Option NodeIx
chosen cs code = boundary_of (or_else (exact_match cs code) (find (λ e. is_none e.0) cs))

chosen-Handles :
    (cs : Candidates) (code : Option String) (b : NodeIx)
    → chosen cs code ≡ some b
    → Handles cs code b
unfolding chosen exact_match
chosen-Handles cs none b h = catch_all (λ c e. cc) (find-FirstFor is_none _ is_none-exact cs b h)
chosen-Handles cs (some c) b h = elim (Option-cases (find (λ e. has_code c e.0) cs)) [
  | inl e ↦
      catch_all
        (λ d q.
          subst (λ x. NoneFor (λ k. k ≡ some x) cs) (some_inj q)
            (find-NoneFor (has_code c) _ (has_code-exact c) cs e))
        (find-FirstFor is_none _ is_none-exact cs b (rw e at h))
  | inr (x, e) ↦
      coded refl
        (find-FirstFor (has_code c) _ (has_code-exact c) cs b (ap boundary_of e ∙ (rw e at h)))
]

Handles-chosen :
    (cs : Candidates) (code : Option String) (b : NodeIx)
    → Handles cs code b
    → chosen cs code ≡ some b
unfolding chosen exact_match
Handles-chosen cs none b (coded e f) = cc
Handles-chosen cs none b (catch_all n f) = FirstFor-find is_none _ is_none-exact f
Handles-chosen cs (some c) b (coded {c = d} e f) = or_else_found _ _ b (
    FirstFor-find (has_code c) _ (has_code-exact c)
      (subst (λ x. FirstFor (λ k. k ≡ some x) cs b) (sym (some_inj e)) f))
Handles-chosen cs (some c) b (catch_all n f) =
    rw (NoneFor-find (has_code c) _ (has_code-exact c) cs (n c refl))
      (FirstFor-find is_none _ is_none-exact f)

module _ (proc : ExecutableProcess) (host : NodeIx) (code : Option String) where
  pub error_boundary_for-Handles :
      (b : NodeIx)
      → (error_boundary_for proc host code ≡ some b) ↔ Handles (proc.error_boundaries host) code b
  unfolding error_boundary_for chosen
  error_boundary_for-Handles b = (
    chosen-Handles (proc.error_boundaries host) code b,
    Handles-chosen (proc.error_boundaries host) code b,
  )

  -- No candidate of the host takes the error.
  pub error_boundary_for-none :
      (error_boundary_for proc host code ≡ none)
      ↔ ((b : NodeIx) → Handles (proc.error_boundaries host) code b → ⊥)
  error_boundary_for-none = (
    λ e b h. let f = (error_boundary_for-Handles b).1 h in cc,
    λ n. elim (Option-cases (error_boundary_for proc host code)) [
      | inl e ↦ e
      | inr (b, e) ↦ absurd (n b ((error_boundary_for-Handles b).0 e))
    ],
  )
