-- ===== src/Step/Claims/History.antt =====
-- An instance after any sequence of commands.
use rbpmn.Common.{ℕ, ◌≡◌, refl, Option, none, some, List, [], ◌∷◌, nowhere}
use rbpmn.Common.Maps.{get}
use rbpmn.Process.{ExecutableProcess, Platform}
use rbpmn.State.{InstanceState, TokenId, Token, new}
use rbpmn.Step.Outcome.{Command}
use rbpmn.Step.Commands.{step}
use rbpmn.Step.Claims.{
  Claim, Names, names_timer, names_subscription, names_item, names_host, Fits, Holds, IsHost,
  Unnamed, holdings, IsTended,
}
use rbpmn.Step.Claims.Commands.{step-IsTended}

new-Unnamed : (k : TokenId) → Unnamed (holdings new) k
new-Unnamed k c (names_timer i t m q) = nowhere m
new-Unnamed k c (names_subscription i t m q) = nowhere m
new-Unnamed k c (names_item i t g o q) = cc g
new-Unnamed k c (names_host i t m q) = nowhere m

new-IsTended : IsTended new
new-IsTended = record {
  held = λ k c n y. absurd (new-Unnamed k c n);
  known = λ k c n. absurd (new-Unnamed k c n);
  minted = λ k t e. cc;
  loose = λ m i. nowhere i;
  apart = tt;
  asked = λ k i. nowhere i;
  ordered = tt;
}

pub parked_of :
    (c : Claim) (o : Option Token)
    → Holds c o
    → ¬ IsHost c
    → (t : Token) × ((o ≡ some t) × Fits c t.wait)
parked_of c none h n = absurd (n h)
parked_of c (some t) h n = (t, (refl, h))

module _ (lib : Platform) (proc : ExecutableProcess) (fuel : ℕ) where
  -- The state that a sequence of commands leaves, whatever each of them answered.
  unfoldable pub history : List Command → InstanceState → InstanceState
  history [] s = s
  history (c ∷ cs) s = history cs (step lib proc fuel c s).0

  history-Tended : (cs : List Command) (s : InstanceState) → IsTended s → IsTended (history cs s)
  unfolding history
  history-Tended [] s h = h
  history-Tended (c ∷ cs) s h =
      history-Tended cs (step lib proc fuel c s).0 (step-IsTended lib proc fuel c s h)

  pub history-IsTended : (cs : List Command) → IsTended (history cs new)
  history-IsTended cs = history-Tended cs new new-IsTended

  -- After any sequence of commands on a new instance, an armed timer, a subscription or an open work
  -- item names a token that is parked, and parked at a wait that fits: an item's token waits for that
  -- item; a timer's for that timer, or it is a task's, a message's, a subprocess's or an event-based
  -- gateway's, as a subscription's always is.
  pub history-live :
      (cs : List Command) (k : TokenId) (c : Claim)
      → Names (holdings (history cs new)) k c
      → ¬ IsHost c
      → (t : Token) × ((get k (history cs new).tokens ≡ some t) × Fits c t.wait)
  history-live cs k c n other =
      parked_of c (get k (history cs new).tokens) ((history-IsTended cs).held k c n (λ y. y)) other
