-- ===== src/Step/Claims/Resume.antt =====
-- The claims on tokens under resume_halted (step.rs).
use mathlib.Core.Path.{subst}
use rbpmn.Common.{
  ◌≡◌, ◌≢◌, refl, sym, ◌∙◌, inl, inr, some, List, [], ◌∷◌, Among, first, later, nowhere,
  Among-append_last, Among-filter, arith,
}
use rbpmn.Common.Maps.{Map, get}
use rbpmn.Common.Maps.Order.{IsOrdered, Among-get, Above-of, filter-IsOrdered}
use rbpmn.Process.{ExecutableProcess}
use rbpmn.State.{TokenId, Token, WaitKind, Halt, halted, in_flight, awaiting_decision}
use rbpmn.Step.Outcome.{Advancer}
use rbpmn.Step.Commands.Repair.{is_halted, resume_one, resume_each, resume_halted}
use rbpmn.Step.Claims.{Fits, Unnamed, holdings, IsSound}
use rbpmn.Step.Claims.Update.{Unmoved-of}
use rbpmn.Step.Claims.Lookup.{get-remove_other}
use rbpmn.Step.Claims.Queue.{ask, enqueue, unpark-Hand}
use rbpmn.Step.Claims.Release.{Fits-of, none_at_halted}

-- The halted tokens that are still to resume.
record Resuming (ts : Map Token) (a : Advancer) : Type 0 where
  sound : IsSound a
  ordered : IsOrdered ts
  there : (k : TokenId) (t : Token) → Among (k, t) ts → get k a.state.tokens ≡ some t
  unasked : (j k : TokenId) (t : Token) → Among j a.reask → Among (k, t) ts → j ≢ k

later_apart :
    (id k : TokenId) (t u : Token) (ts : Map Token)
    → IsOrdered ((id, t) ∷ ts)
    → Among (k, u) ts
    → id ≢ k
later_apart id k t u ts o i e = let l = Above-of id k u ts o.0 i in omega arith

module _ (proc : ExecutableProcess) where
  halted_free :
      (id : TokenId) (t : Token) (ts : Map Token) (x : Halt) (a : Advancer)
      → Resuming ((id, t) ∷ ts) a
      → t.wait ≡ halted x
      → Unnamed (holdings a.state) id
  halted_free id t ts x a r w c n =
      none_at_halted c x (subst (Fits c) w (Fits-of a c r.sound (r.there id t first) n))

  -- Nothing resumes on a token that is not halted.
  passed :
      (id : TokenId) (t : Token) (ts : Map Token) (a : Advancer)
      → Resuming ((id, t) ∷ ts) a
      → Resuming ts a
  passed id t ts a r = record {
    sound = r.sound;
    ordered = r.ordered.1;
    there = λ k u i. r.there k u (later i);
    unasked = λ j k u m i. r.unasked j k u m (later i);
  }

  resume_one-Resuming :
      (id : TokenId) (t : Token) (ts : Map Token) (w : WaitKind) (a : Advancer)
      → Resuming ((id, t) ∷ ts) a
      → t.wait ≡ w
      → Resuming ts (resume_one proc id t w a)
  unfolding resume_one
  resume_one-Resuming id t ts (halted (in_flight via)) a r w =
      let (left, hand) =
        unpark-Hand id t r.sound (r.there id t first) (halted_free id t ts (in_flight via) a r w)
          (λ j i. r.unasked j id t i first) in
      record {
        sound = enqueue _ left hand;
        ordered = r.ordered.1;
        there = λ k u i.
            get-remove_other id k a.state.tokens (later_apart id k t u ts r.ordered i)
            ∙ r.there k u (later i);
        unasked = λ j k u m i. r.unasked j k u m (later i);
      }
  resume_one-Resuming id t ts (halted awaiting_decision) a r w =
      let e = r.there id t first in
      record {
        sound = ask id r.sound (record {
          unnamed = halted_free id t ts awaiting_decision a r w;
          unmoved = Unmoved-of r.sound e;
          below = r.sound.minted id t e;
        });
        ordered = r.ordered.1;
        there = λ k u i. r.there k u (later i);
        unasked = λ j k u m i. elim (Among-append_last a.reask id m) [
          | inl o ↦ r.unasked j k u o (later i)
          | inr q ↦ λ y. later_apart id k t u ts r.ordered i (sym q ∙ y)
        ];
      }
  resume_one-Resuming id t ts _ a r w = passed id t ts a r

  resume_each-IsSound :
      (ts : List (TokenId × Token)) (a : Advancer) → Resuming ts a → IsSound (resume_each proc ts a)
  unfolding resume_each
  resume_each-IsSound [] a r = r.sound
  resume_each-IsSound ((id, t) ∷ ts) a r =
      resume_each-IsSound ts _ (resume_one-Resuming id t ts t.wait a r refl)

  pub resume_halted-IsSound :
      (a : Advancer) → IsSound a → a.reask ≡ [] → IsSound (resume_halted proc a)
  unfolding resume_halted
  resume_halted-IsSound a s e = resume_each-IsSound _ a (record {
    sound = s;
    ordered = filter-IsOrdered (λ x. is_halted x.1.wait) a.state.tokens s.ordered;
    there = λ k t i.
        Among-get k t a.state.tokens s.ordered
          (Among-filter (λ x. is_halted x.1.wait) a.state.tokens i).0;
    unasked = λ j k t m i. nowhere (subst (Among j) e m);
  })
