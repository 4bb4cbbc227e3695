-- ===== src/Step/Boundary/Walk.antt =====
-- `outward` and `catcher` against relations: the chain of enclosing scopes up to the root, and the
-- nearest host on it with a boundary for an error's code.
use mathlib.Core.Option.{some-injective}
use mathlib.Core.Path.{subst}
use rbpmn.Common.{
  ℕ, zero, suc, ◌<◌, ◌≡◌, refl, sym, ap, ◌∙◌, ◌↔◌, Option, none, some, List, [], ◌∷◌, String, arith,
  Option-cases, inl, inr,
}
use rbpmn.Common.{Among, first, later, nowhere, Among-cons}
use rbpmn.Common.Maps.{get}
use rbpmn.Process.{NodeIx, ExecutableProcess, error_boundary_for}
use rbpmn.Step.Boundary.Handles.{Handles, error_boundary_for-Handles, error_boundary_for-none}
use rbpmn.State.{InstanceState, ScopeState, ScopeId, TokenId}
use rbpmn.Step.Boundary.{outward_loop, outward, first_catch, catcher}

-- Every scope lies inside an older one.
pub record IsNested (s : InstanceState) : Type 0 where
  pub parent_is_older : (k : ScopeId) (e : ScopeState) → get k s.scopes ≡ some e → e.parent < k

-- The subprocesses around a scope, from it to the first that is not open.
pub data Walk (s : InstanceState) : ScopeId → List (TokenId × NodeIx) → Type 0 where
  outermost : {at : ScopeId} → get at s.scopes ≡ none → Walk s at []
  enclosed :
      {at : ScopeId} {e : ScopeState} {hosts : List (TokenId × NodeIx)}
      → get at s.scopes ≡ some e
      → Walk s e.parent hosts
      → Walk s at ((e.token, e.element) ∷ hosts)

-- The nearest host of a list with a boundary that takes an error of the code, and that boundary.
pub data Catches (proc : ExecutableProcess) (code : Option String)
    : List (TokenId × NodeIx) → TokenId → NodeIx → Type 0 where
  catches_here :
      {target : TokenId} {host b : NodeIx} {hosts : List (TokenId × NodeIx)}
      → Handles (proc.error_boundaries host) code b
      → Catches proc code ((target, host) ∷ hosts) target b
  catches_outer :
      {t target : TokenId} {host b : NodeIx} {hosts : List (TokenId × NodeIx)}
      → ((c : NodeIx) → Handles (proc.error_boundaries host) code c → ⊥)
      → Catches proc code hosts target b
      → Catches proc code ((t, host) ∷ hosts) target b

-- No host of a list has a boundary that takes an error of the code.
abbrev pub NoneCatches : ExecutableProcess → Option String → List (TokenId × NodeIx) → Type 0
NoneCatches proc code hosts =
    (h : TokenId × NodeIx)
    → Among h hosts
    → (b : NodeIx) → Handles (proc.error_boundaries h.1) code b
    → ⊥

outward_loop-none :
    (fuel : ℕ) (s : InstanceState) (at : ScopeId)
    → get at s.scopes ≡ none
    → outward_loop (suc fuel) s at ≡ []
unfolding outward_loop
outward_loop-none fuel s at h = rw (h, outward_loop) refl

outward_loop-some :
    (fuel : ℕ) (s : InstanceState) (at : ScopeId) (e : ScopeState)
    → get at s.scopes ≡ some e
    → outward_loop (suc fuel) s at ≡ (e.token, e.element) ∷ outward_loop fuel s e.parent
unfolding outward_loop
outward_loop-some fuel s at e h = rw (h, outward_loop) refl

outward_loop-Walk :
    (fuel : ℕ) (s : InstanceState) (at : ScopeId)
    → IsNested s
    → at < fuel
    → Walk s at (outward_loop fuel s at)
outward_loop-Walk zero s at n h = absurd (omega (arith, h))
outward_loop-Walk (suc fuel) s at n h = elim (Option-cases (get at s.scopes)) [
  | inl e ↦ subst (Walk s at) (sym (outward_loop-none fuel s at e)) (outermost e)
  | inr (c, e) ↦ subst (Walk s at) (sym (outward_loop-some fuel s at c e)) (
      enclosed e (outward_loop-Walk fuel s c.parent n (omega (arith, h, n.parent_is_older at c e))))
]

Walk-unique :
    (s : InstanceState) {at : ScopeId} {xs ys : List (TokenId × NodeIx)}
    → Walk s at xs
    → Walk s at ys
    → xs ≡ ys
Walk-unique s (outermost h) (outermost k) = refl
Walk-unique s (outermost h) (enclosed k w) = cc
Walk-unique s (enclosed h w) (outermost k) = cc
Walk-unique s (enclosed {e = c} h w) (enclosed {e = d} {hosts = far} k v) =
    let same = some-injective _ _ (sym h ∙ k) in
    let rest = Walk-unique s w (subst (λ x. Walk s x.parent far) (sym same) v) in cc

module _ (proc : ExecutableProcess) (code : Option String) where
  first_catch-none :
      (target : TokenId) (host : NodeIx) (hosts : List (TokenId × NodeIx))
      → error_boundary_for proc host code ≡ none
      → first_catch proc ((target, host) ∷ hosts) code ≡ first_catch proc hosts code
  unfolding first_catch
  first_catch-none target host hosts h = rw (h, first_catch) refl

  first_catch-some :
      (target : TokenId) (host b : NodeIx) (hosts : List (TokenId × NodeIx))
      → error_boundary_for proc host code ≡ some b
      → first_catch proc ((target, host) ∷ hosts) code ≡ some (target, b)
  unfolding first_catch
  first_catch-some target host b hosts h = rw (h, first_catch) refl

  Catches-first_catch :
      {hosts : List (TokenId × NodeIx)} {target : TokenId} {b : NodeIx}
      → Catches proc code hosts target b
      → first_catch proc hosts code ≡ some (target, b)
  Catches-first_catch (catches_here {host} h) =
      first_catch-some _ _ _ _ ((error_boundary_for-Handles proc host code _).1 h)
  Catches-first_catch (catches_outer {host} h c) =
      first_catch-none _ _ _ ((error_boundary_for-none proc host code).1 h) ∙ Catches-first_catch c

  first_catch-Catches :
      (hosts : List (TokenId × NodeIx)) (target : TokenId) (b : NodeIx)
      → first_catch proc hosts code ≡ some (target, b)
      → Catches proc code hosts target b
  unfolding first_catch
  first_catch-Catches [] target b h = cc
  first_catch-Catches ((t, host) ∷ hosts) target b h =
      elim (Option-cases (error_boundary_for proc host code)) [
        | inl e ↦
            catches_outer ((error_boundary_for-none proc host code).0 e)
              (first_catch-Catches hosts target b (sym (first_catch-none t host hosts e) ∙ h))
        | inr (c, e) ↦
            let same = some-injective _ _ (sym (first_catch-some t host c hosts e) ∙ h) in
            subst (λ p. Catches proc code ((t, host) ∷ hosts) p.0 p.1) same
              (catches_here ((error_boundary_for-Handles proc host code c).0 e))
      ]

  first_catch-NoneCatches :
      (hosts : List (TokenId × NodeIx))
      → first_catch proc hosts code ≡ none
      → NoneCatches proc code hosts
  unfolding first_catch
  first_catch-NoneCatches [] e h m b k = nowhere m
  first_catch-NoneCatches ((t, host) ∷ hosts) e h m b k =
      elim (Option-cases (error_boundary_for proc host code)) [
        | inr (c, q) ↦ cc (sym (first_catch-some t host c hosts q) ∙ e)
        | inl q ↦ elim (Among-cons m) [
          | inl p ↦
              (error_boundary_for-none proc host code).0 q b
                (subst (λ (x : TokenId × NodeIx). Handles (proc.error_boundaries x.1) code b) p k)
          | inr n ↦
              first_catch-NoneCatches hosts (sym (first_catch-none t host hosts q) ∙ e) h n b k
        ]
      ]

  NoneCatches-first_catch :
      (hosts : List (TokenId × NodeIx))
      → NoneCatches proc code hosts
      → first_catch proc hosts code ≡ none
  unfolding first_catch
  NoneCatches-first_catch [] n = refl
  NoneCatches-first_catch ((t, host) ∷ hosts) n =
      first_catch-none t host hosts ((error_boundary_for-none proc host code).1 (n (t, host) first))
      ∙ NoneCatches-first_catch hosts (λ h m. n h (later m))

outward-chain :
    (s : InstanceState) (host : NodeIx) (token : TokenId) (at : ScopeId)
    (hosts : List (TokenId × NodeIx))
    → IsNested s
    → Walk s at hosts
    → outward s host token at ≡ (token, host) ∷ hosts
unfolding outward
outward-chain s host token at hosts n w =
    ap (λ xs. (token, host) ∷ xs)
      (Walk-unique s (outward_loop-Walk (suc at) s at n (omega arith)) w)

-- Where every scope lies in an older one, `outward` is the host followed by the whole chain of the
-- subprocesses around it, up to the first scope that is not open.
pub outward-Walk :
    (s : InstanceState) (host : NodeIx) (token : TokenId) (at : ScopeId)
    → IsNested s
    → (hosts : List (TokenId × NodeIx)) × (Walk s at hosts
        × (outward s host token at ≡ (token, host) ∷ hosts))
unfolding outward
outward-Walk s host token at n =
    let w = outward_loop-Walk (suc at) s at n (omega arith) in
    (outward_loop (suc at) s at, (w, outward-chain s host token at _ n w))

-- Where every scope lies in an older one, an error is caught by a boundary exactly where the boundary
-- is on the nearest host of the chain with one that takes the error, and is the first there for
-- exactly the error's code, or else the first for no code; and by none exactly where no host of the
-- chain has one that takes it.
pub catcher-Catches :
    (proc : ExecutableProcess) (code : Option String) (s : InstanceState) (host : NodeIx)
    (token : TokenId) (at : ScopeId) (hosts : List (TokenId × NodeIx))
    → IsNested s
    → Walk s at hosts
    → ((target : TokenId) (b : NodeIx)
        → (catcher proc s host token at code ≡ some (target, b))
          ↔ Catches proc code ((token, host) ∷ hosts) target b)
      × ((catcher proc s host token at code ≡ none) ↔ NoneCatches proc code ((token, host) ∷ hosts))
unfolding catcher
catcher-Catches proc code s host token at hosts n w =
    let e = ap (λ xs. first_catch proc xs code) (outward-chain s host token at hosts n w) in
    (
      λ target b. (
        λ h. first_catch-Catches proc code _ target b (sym e ∙ h),
        λ c. e ∙ Catches-first_catch proc code c,
      ),
      (
        λ h. first_catch-NoneCatches proc code _ (sym e ∙ h),
        λ c. e ∙ NoneCatches-first_catch proc code _ c,
      ),
    )
