-- ===== src/Step/Claims/Catcher.antt =====
-- Whom the outward walk of an error can interrupt: the host that it starts at, or a scope's.
use mathlib.Core.Option.{some-injective}
use mathlib.Core.Path.{subst}
use rbpmn.Common.{
  ℕ, zero, suc, ◌≡◌, refl, sym, ap, ◌∙◌, inl, inr, Option, none, some, String, List, [], ◌∷◌, Among,
  first, later, nowhere, Among-cons,
}
use rbpmn.Common.Maps.{get, get-Among}
use rbpmn.Process.{NodeIx, ExecutableProcess, error_boundary_for}
use rbpmn.State.{InstanceState, TokenId, ScopeId}
use rbpmn.Step.Outcome.{Advancer}
use rbpmn.Step.Boundary.{outward_loop, outward, first_catch, catcher}
use rbpmn.Step.Claims.{item_of, host_of, holdings, Names, names_host, IsSound}
use rbpmn.Step.Claims.Less.{on_option}
use rbpmn.Step.Claims.Moves.{host_not_item}
use rbpmn.Step.Claims.Release.{Fits-of, item_parked}

-- A token that hosts a scope of the state.
data Hosts (s : InstanceState) (k : TokenId) : Type 0 where
  hosts_scope : (q : ScopeId) → Names (holdings s) k (host_of q) → Hosts s k

outward_loop-Hosts :
    (fuel : ℕ) (s : InstanceState) (at : ScopeId) (e : TokenId × NodeIx)
    → Among e (outward_loop fuel s at)
    → Hosts s e.0
unfolding outward_loop
outward_loop-Hosts zero s at e i = nowhere i
outward_loop-Hosts (suc fuel) s at e i =
    on_option (λ l. Among e l → Hosts s e.0) (get at s.scopes) (λ _ i. nowhere i)
      (λ c q i. elim (Among-cons {y = (c.token, c.element)} {xs = outward_loop fuel s c.parent} i) [
        | inl y ↦
            hosts_scope at (names_host at c (get-Among at c s.scopes q) (sym (ap (λ z. z.0) y)))
        | inr n ↦ outward_loop-Hosts fuel s c.parent e n
      ])
      i

pair_of : {x y : TokenId × NodeIx} → some x ≡ some y → x.0 ≡ y.0
pair_of {x} {y} h = ap (λ z. z.0) (some-injective x y h)

module _ (proc : ExecutableProcess) where
  first_catch-Among :
      (hosts : List (TokenId × NodeIx)) (code : Option String) (c : TokenId × NodeIx)
      → first_catch proc hosts code ≡ some c
      → (e : TokenId × NodeIx) × (Among e hosts × (e.0 ≡ c.0))
  unfolding first_catch
  first_catch-Among [] code c h = cc
  first_catch-Among ((t, host) ∷ hosts) code c h =
      found (error_boundary_for proc host code) (first_catch-Among hosts code c) h
    where
      found :
          (o : Option NodeIx)
          → (first_catch proc hosts code ≡ some c
              → (e : TokenId × NodeIx) × (Among e hosts × (e.0 ≡ c.0)))
          → (elim o [ some b ↦ some (t, b) | none ↦ first_catch proc hosts code ]) ≡ some c
          → (e : TokenId × NodeIx) × (Among e ((t, host) ∷ hosts) × (e.0 ≡ c.0))
      found (some b) rest h = ((t, host), (first, pair_of h))
      found none rest h = let (e, (m, q)) = rest h in (e, (later m, q))

  -- No open item names whom the walk interrupts, if none names the host that it starts at.
  pub catcher-no_item :
      (a : Advancer) (s : InstanceState) (host : NodeIx) (k : TokenId) (at : ScopeId)
      (code : Option String) (target : TokenId) (boundary : NodeIx)
      → IsSound a
      → holdings s ≡ holdings a.state
      → ((id : ℕ) → ¬ Names (holdings a.state) k (item_of id))
      → catcher proc s host k at code ≡ some (target, boundary)
      → (id : ℕ) → ¬ Names (holdings a.state) target (item_of id)
  unfolding catcher outward
  catcher-no_item a s host k at code target boundary h same free e id n =
      let (x, (m, q)) = first_catch-Among (outward s host k at) code (target, boundary) e in
      elim (Among-cons m) [
        | inl y ↦
            free id
              (subst (λ j. Names (holdings a.state) j (item_of id)) (sym q ∙ ap (λ z. z.0) y) n)
        | inr o ↦ hosted x.0 (outward_loop-Hosts (suc at) s at x o) q
      ]
    where
      hosted : (j : TokenId) → Hosts s j → j ≡ target → ⊥
      hosted j (hosts_scope r m) q =
          let m' =
            subst (λ j. Names (holdings a.state) j (host_of r)) q
              (subst (λ y. Names y j (host_of r)) same m) in
          let (t, p) = item_parked a (get target a.state.tokens) h refl n in
          host_not_item r id t.wait (Fits-of a (host_of r) h p m') (Fits-of a (item_of id) h p n)
