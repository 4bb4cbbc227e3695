-- ===== src/Step/Advance/Enter/Reask.antt =====
-- What the end of `run` does with the decisions of a repair.
use mathlib.Core.Path.{subst}
use rbpmn.Common.{
  ◌≡◌, refl, sym, ap, ◌∙◌, inl, inr, Bool, true, false, ◌||◌, Option, none, some, List, [], ◌∷◌,
  ◌==◌, ==_iff, Bool-cases, Option-cases, arith, if◌then◌else◌,
}
use rbpmn.Common.Maps.{get, insert, get-insert}
use rbpmn.Process.{Platform, ExecutableProcess, NodeIx, ExecKind, kind_of}
use rbpmn.State.{active, TokenId, Token, decision, is_active}
use rbpmn.Step.Outcome.{Advancer}
use rbpmn.Step.Withdraw.{contains}
use rbpmn.Step.Advance.Enter.{ask_again, request, settle_decisions}

-- A token that waits for its decision.
abbrev decides : Token → Token
decides t = record t { wait = decision }

module _ (lib : Platform) (proc : ExecutableProcess) where
  request-state :
      (k : ExecKind) (ix : NodeIx) (a : Advancer) → (request lib proc k ix a).state ≡ a.state
  unfolding request
  request-state k ix a = ground arith

  ask_again-none :
      (x : TokenId) (ts : List TokenId) (a : Advancer)
      → get x a.state.tokens ≡ none
      → ask_again lib proc (x ∷ ts) a ≡ ask_again lib proc ts a
  unfolding ask_again
  ask_again-none x ts a h = rw (h, ask_again) refl

  asked : TokenId → Token → Advancer → Advancer
  asked x t a =
      request lib proc (kind_of proc t.node) t.node
        (record a { state = record (a.state) { tokens = insert x (decides t) a.state.tokens } })

  ask_again-some :
      (x : TokenId) (ts : List TokenId) (t : Token) (a : Advancer)
      → get x a.state.tokens ≡ some t
      → ask_again lib proc (x ∷ ts) a ≡ ask_again lib proc ts (asked x t a)
  unfolding ask_again asked
  ask_again-some x ts t a h = rw (h, ask_again) refl

  asked-get :
      (x k : TokenId) (t : Token) (a : Advancer)
      → get k (asked x t a).state.tokens
        ≡ (if x == k then some (decides t) else get k a.state.tokens)
  unfolding asked
  asked-get x k t a =
      ap (λ s. get k s.tokens) (request-state (kind_of proc t.node) t.node _)
      ∙ get-insert x k (decides t) a.state.tokens

  waiting_at : Bool → Option Token → Option Token
  waiting_at true none = none
  waiting_at true (some t) = some (decides t)
  waiting_at false o = o

  waiting_at_or :
      (b c : Bool) (o : Option Token) → waiting_at c (waiting_at b o) ≡ waiting_at (b || c) o
  unfolding waiting_at
  waiting_at_or true true none = refl
  waiting_at_or true true (some t) = refl
  waiting_at_or true false o = refl
  waiting_at_or false c o = refl

  waiting_at-none : (b : Bool) → waiting_at b none ≡ none
  unfolding waiting_at
  waiting_at-none true = refl
  waiting_at-none false = refl

  waiting_at-absent :
      (x k : TokenId) (c : Bool) (a : Advancer)
      → get x a.state.tokens ≡ none
      → waiting_at c (get k a.state.tokens) ≡ waiting_at ((x == k) || c) (get k a.state.tokens)
  waiting_at-absent x k c a h = elim (Bool-cases (x == k)) [
    | inl e ↦
        let same = subst (λ j. get j a.state.tokens ≡ none) ((==_iff x k).0 e) h in
        rw (e, same) (waiting_at-none c ∙ sym (waiting_at-none true))
    | inr e ↦ rw e refl
  ]

  waiting_at-present :
      (x k : TokenId) (t : Token) (a : Advancer)
      → get x a.state.tokens ≡ some t
      → (if x == k then some (decides t) else get k a.state.tokens)
        ≡ waiting_at (x == k) (get k a.state.tokens)
  unfolding waiting_at
  waiting_at-present x k t a h = elim (Bool-cases (x == k)) [
    | inl e ↦
        let same = subst (λ j. get j a.state.tokens ≡ some t) ((==_iff x k).0 e) h in
        rw (e, same) refl
    | inr e ↦ rw e refl
  ]

  ask_again-get :
      (ts : List TokenId) (k : TokenId) (a : Advancer)
      → get k (ask_again lib proc ts a).state.tokens
        ≡ waiting_at (contains ts k) (get k a.state.tokens)
  unfolding ask_again waiting_at
  ask_again-get [] k a = refl
  ask_again-get (x ∷ ts) k a = elim (Option-cases (get x a.state.tokens)) [
    | inl e ↦
        ap (λ b. get k b.state.tokens) (ask_again-none x ts a e)
        ∙ ask_again-get ts k a
        ∙ waiting_at-absent x k (contains ts k) a e
    | inr (t, e) ↦
        ap (λ b. get k b.state.tokens) (ask_again-some x ts t a e)
        ∙ ask_again-get ts k (asked x t a)
        ∙ ap (waiting_at (contains ts k)) (asked-get x k t a ∙ waiting_at-present x k t a e)
        ∙ waiting_at_or (x == k) (contains ts k) (get k a.state.tokens)
  ]

  -- Where the moves of a repair left the instance active, every token that is to be asked again and
  -- is still there waits for its decision at the end, where it stood.
  pub settle_decisions-decides :
      (a : Advancer) (k : TokenId) (t : Token)
      → a.state.status ≡ active
      → contains a.reask k ≡ true
      → get k a.state.tokens ≡ some t
      → get k (settle_decisions lib proc a).state.tokens ≡ some (decides t)
  unfolding settle_decisions waiting_at
  settle_decisions-decides a k t h r g =
      rw (ap is_active h, settle_decisions)
        (ask_again-get a.reask k (record a { reask = [] })
          ∙ ap (λ b. waiting_at b (get k a.state.tokens)) r
          ∙ ap (waiting_at true) g)
