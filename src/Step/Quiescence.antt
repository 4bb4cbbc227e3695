-- ===== src/Step/Quiescence.antt =====
-- What `Advancer::run` leaves when it returns.
pub mod Results
pub mod Commands
use mathlib.Core.Option.{some-injective}
use mathlib.Core.Path.{subst}
use rbpmn.Common.{
  ℕ, zero, suc, ◌≡◌, ◌≢◌, refl, sym, ap, ◌∙◌, ◌⊎◌, inl, inr, Bool, true, false, Option, none, some,
  List, [], ◌∷◌, arith, is_nil, if◌then◌else◌, Bool-cases,
}
use rbpmn.Common.Maps.{get}
use rbpmn.Process.{ExecutableProcess, Platform, kind_of}
use rbpmn.State.{InstanceState, InstanceStatus, active, completed, TokenId, is_active}
use rbpmn.Step.Outcome.{Advancer, Move, Run, ok, fault, exhausted, ◌>>=◌}
use rbpmn.Step.Advance.Enter.{
  enter, drain, request, ask_again, settle_decisions, settle_status, run,
}
use rbpmn.Step.Advance.Enter.Arms.{Quiet, live, drained, Ends, ends_ok, ends_fault, ends_exhausted}
use rbpmn.Step.Advance.Enter.Quiet.{enter-Ends}

round_same :
    (q : List Move) {x y : Run} {f g : Move → List Move → Run}
    → x ≡ y
    → ((m : Move) (r : List Move) → q ≡ m ∷ r → f m r ≡ g m r)
    → (elim q [ [] ↦ x | m ∷ r ↦ f m r ]) ≡ (elim q [ [] ↦ y | m ∷ r ↦ g m r ])
round_same [] p k = p
round_same (m ∷ r) p k = k m r refl

if_true : (b : Bool) (x y z : Run) → b ≡ true → x ≡ z → (if b then x else y) ≡ z
if_true true x y z h p = p
if_true false x y z h p = cc

-- Two continuations that agree on the quiet ends of a run agree after it.
then_same :
    {r : Run} (f g : Advancer → Run)
    → Ends r
    → ((b : Advancer) → Quiet b → f b ≡ g b)
    → (r >>= f) ≡ (r >>= g)
then_same f g (ends_ok q) k = k _ q
then_same f g ends_fault k = refl
then_same f g ends_exhausted k = refl

Quiet-of : {a : Advancer} → a.state.status ≡ active ⊎ a.queue ≡ [] → Quiet a
Quiet-of (inl h) = live h
Quiet-of (inr h) = drained h

not_drained :
    {a : Advancer} {m : Move} {r : List Move} → Quiet a → a.queue ≡ m ∷ r → a.state.status ≡ active
not_drained (live h) e = h
not_drained (drained h) e = cc

module _ (lib : Platform) (proc : ExecutableProcess) where
  -- The loop over the queue without the guard: every move is entered.
  unfoldable pub unguarded : ℕ → Advancer → Run
  unguarded zero a = exhausted a
  unguarded (suc fuel) a = elim (a.queue) [
    | [] ↦ ok a
    | m ∷ rest ↦ enter lib proc m (record a { queue = rest }) >>= unguarded fuel
  ]

  drain-unguarded : (fuel : ℕ) (a : Advancer) → Quiet a → drain lib proc fuel a ≡ unguarded fuel a
  unfolding drain unguarded
  drain-unguarded zero a q = refl
  drain-unguarded (suc fuel) a q = round_same a.queue refl (λ m r e.
      let h = not_drained q e in
      if_true (is_active a.state.status) _ _ _ (ap is_active h) (
        then_same (drain lib proc fuel) (unguarded fuel) (enter-Ends lib proc m _ h)
          (drain-unguarded fuel)))

  -- An instance that is still active has a token.
  pub settle_status-tokens :
      (a : Advancer)
      → (settle_status lib proc a).state.status ≡ active
      → (settle_status lib proc a).state.tokens ≢ []
  unfolding settle_status
  settle_status-tokens a h k = ground arith

  -- The guard in the loop of `run` drops no move: from an active instance, or from one that a freeze
  -- or a terminate has emptied, `run` is the loop that enters every move that is queued, until none
  -- is, and then settles the decisions and the status.
  pub run-unguarded :
      (fuel : ℕ) (a : Advancer)
      → a.state.status ≡ active ⊎ a.queue ≡ []
      → run lib proc fuel a
        ≡ (unguarded fuel a >>= λ b. ok (settle_status lib proc (settle_decisions lib proc b)))
  unfolding run
  run-unguarded fuel a q =
      ap (λ r. r >>= λ b. ok (settle_status lib proc (settle_decisions lib proc b)))
        (drain-unguarded fuel a (Quiet-of q))
