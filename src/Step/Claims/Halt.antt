-- ===== src/Step/Claims/Halt.antt =====
-- The claims on tokens under the halting part of a freeze (step.rs).
use mathlib.Core.Path.{subst}
use rbpmn.Common.{
  ℕ, ◌≡◌, refl, sym, ap, ◌∙◌, ◌⊎◌, inl, inr, Option, none, some, List, [], ◌∷◌, map, arith,
}
use rbpmn.Common.Maps.{Map, get}
use rbpmn.Common.Maps.Order.{map-IsOrdered}
use rbpmn.State.{TokenId, ScopeId, Token, WaitKind, in_flight, halted, decision, awaiting_decision}
use rbpmn.Step.Outcome.{Move}
use rbpmn.Step.Withdraw.{halt_decision, halt_moves, owned_scope}
use rbpmn.Step.Claims.{
  Claim, timer_of, subscription_of, item_of, host_of, Holdings, Fits, Holds, Sound,
}
use rbpmn.Step.Claims.Update.{put}
use rbpmn.Step.Claims.Queue.{popped}

pub changed : (Token → Token) → Option Token → Option Token
changed f none = none
changed f (some t) = some (f t)

pub get-map :
    (f : Token → Token) (k : ℕ) (m : Map Token)
    → get k (map (λ e. (e.0, f e.1)) m) ≡ changed f (get k m)
unfolding changed
get-map f k [] = refl
get-map f k ((j, t) ∷ m) = ground (arith, get-map f k m)

pub changed-none : (f : Token → Token) (o : Option Token) → o ≡ none → changed f o ≡ none
unfolding changed
changed-none f none e = refl
changed-none f (some t) e = cc

pub changed-some :
    (f : Token → Token) (o : Option Token) (t : Token)
    → changed f o ≡ some t
    → (u : Token) × (o ≡ some u)
unfolding changed
changed-some f none t e = cc
changed-some f (some u) t e = (u, refl)

pub halted_wait :
    (c : Claim) (w : WaitKind)
    → Fits c w
    → Fits c (elim w [ decision ↦ halted awaiting_decision | other ↦ other ])
halted_wait (timer_of _) decision h = h
halted_wait (subscription_of _) decision h = h
halted_wait (item_of _) decision h = h
halted_wait (host_of _) decision h = h
halted_wait c _ h = h

pub changed-Holds : (c : Claim) (o : Option Token) → Holds c o → Holds c (changed halt_decision o)
unfolding changed
changed-Holds c none h = h
changed-Holds c (some t) h = halted_wait c t.wait h

module _ {h : Holdings} {next : ℕ} {reask : List TokenId} where
  pub halt_decisions-Sound :
      {tokens : Map Token} {queue : List Move}
      → Sound none h tokens next queue reask
      → Sound none h (map (λ e. (e.0, halt_decision e.1)) tokens) next queue reask
  halt_decisions-Sound {tokens} s = record {
    ordered = map-IsOrdered halt_decision tokens s.ordered;
    held = λ k c n y.
        subst (Holds c) (sym (get-map halt_decision k tokens))
          (changed-Holds c (get k tokens) (s.held k c n y));
    known = s.known;
    minted = λ k t e.
        let (u, g) =
          changed-some halt_decision (get k tokens) t (sym (get-map halt_decision k tokens) ∙ e) in
        s.minted k u g;
    loose = λ m i.
        let f = s.loose m i in
        record {
          unparked =
              get-map halt_decision m.token tokens
              ∙ changed-none halt_decision (get m.token tokens) f.unparked;
          unnamed = f.unnamed;
          below = f.below;
        };
    apart = s.apart;
    asked = s.asked;
  }

  pub halt_moves-Sound :
      (queue : List Move) (tokens : Map Token)
      → Sound none h tokens next queue reask
      → Sound none h (halt_moves queue tokens) next [] reask
  unfolding halt_moves
  halt_moves-Sound [] tokens s = s
  halt_moves-Sound (m ∷ queue) tokens s =
      let (s', k) = popped m queue s in
      halt_moves-Sound queue _ (
        put m.token (record { node = m.node; scope = m.scope; wait = halted (in_flight m.via) }) s'
          (λ j y. absurd y) (λ c n. absurd (k.free.unnamed c n)) k.unmoved k.free.below)

pub scope_of_fit :
    (s : ScopeId) (w : WaitKind)
    → Fits (host_of s) w
    → (elim w [ WaitKind.scope child ↦ some child | _ ↦ none ]) ≡ some s
scope_of_fit s (WaitKind.scope k) e = ap some e
scope_of_fit s _ e = absurd e

pub owned_of_Holds :
    (s : ScopeId) (o : Option Token) → Holds (host_of s) o → (o ≡ none) ⊎ (owned_scope o ≡ some s)
owned_of_Holds s none e = inl refl
owned_of_Holds s (some t) e = inr (scope_of_fit s t.wait e)
