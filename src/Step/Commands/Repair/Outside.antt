-- ===== src/Step/Commands/Repair/Outside.antt =====
-- What `discard_scope` leaves of the queue and of the tokens (step.rs): the moves and the tokens that
-- are outside the scope that it discards.
use mathlib.Core.Path.{subst}
use rbpmn.Common.{
  Among, first, later, Among-cons, nowhere, ℕ, ◌≡◌, refl, sym, ap, ◌∙◌, inl, inr, zero, suc, Bool,
  true, false, not, Option, none, some, List, [], ◌∷◌, ◌++◌, arith, any, filter, ◌==◌, ==_iff,
  Bool-cases, length,
}
use rbpmn.Common.Maps.{Map, get, keys}
use rbpmn.Process.{ExecutableProcess}
use rbpmn.State.{InstanceState, TokenId, ScopeId, Token, children, subtree_loop, scope_subtree}
use rbpmn.Step.Outcome.{Advancer, Move}
use rbpmn.Step.Withdraw.{
  contains, discard_scope, tear_down_scope, reap, reap_all, open_items_of, cancel_items,
}
use rbpmn.Step.Withdraw.Keeps.{cancel_items-Same, withdraw_arms-Same}
use rbpmn.Step.Withdraw.Clears.{reap_all-get}

-- A scope is not inside the one that is discarded, if one is.
abbrev pub IsOutside : Option ScopeId → InstanceState → ScopeId → Type 0
IsOutside o s at = (q : ScopeId) → o ≡ some q → contains (scope_subtree s q) at ≡ false

subtree_loop-same :
    (fuel : ℕ) (s t : InstanceState) (pending : List ScopeId)
    → t.scopes ≡ s.scopes
    → subtree_loop fuel t pending ≡ subtree_loop fuel s pending
unfolding subtree_loop children
subtree_loop-same zero s t pending e = refl
subtree_loop-same (suc fuel) s t [] e = refl
subtree_loop-same (suc fuel) s t (p ∷ pending) e =
    ap (λ cs. p ∷ subtree_loop fuel t (pending ++ keys (filter (λ x. x.1.parent == p) cs))) e
    ∙ ap (λ ps. p ∷ ps) (subtree_loop-same fuel s t (pending ++ children s p) e)

pub IsOutside-same :
    (o : Option ScopeId) (s t : InstanceState) (at : ScopeId)
    → t.scopes ≡ s.scopes
    → IsOutside o s at
    → IsOutside o t at
unfolding scope_subtree
IsOutside-same o s t at e h q n =
    ap (λ ps. contains ps at)
      (ap (λ m. subtree_loop (suc (suc (length m))) t (q ∷ [])) e
        ∙ subtree_loop-same (suc (suc (length s.scopes))) s t (q ∷ []) e)
    ∙ h q n

-- A filter keeps what passes, and finds nothing new.
Among-kept :
    {A : Type 0} (p : A → Bool) (x : A) (xs : List A)
    → Among x xs
    → p x ≡ true
    → Among x (filter p xs)
Among-kept p x [] m h = nowhere m
Among-kept p x (y ∷ xs) m h = elim (Among-cons m) [
  | inl e ↦ subst (λ z. Among x (filter p (z ∷ xs))) e (rw h first)
  | inr n ↦ elim (Bool-cases (p y)) [
    | inl e ↦ rw e (later (Among-kept p x xs n h))
    | inr e ↦ rw e (Among-kept p x xs n h)
  ]
]

pub any-filter :
    {A : Type 0} (p q : A → Bool) (xs : List A) → any q xs ≡ false → any q (filter p xs) ≡ false
any-filter p q [] h = refl
any-filter p q (x ∷ xs) h = ground (arith, any-filter p q xs, h)

-- The token `k` has the one entry `t`, as in every map.
abbrev pub IsSole : TokenId → Token → Map Token → Type 0
IsSole k t m = (get k m ≡ some t) × ((x : Token) → Among (k, x) m → x ≡ t)

module _ (proc : ExecutableProcess) where
  reap_all-queue : (ts : List TokenId) (a : Advancer) → (reap_all proc ts a).queue ≡ a.queue
  unfolding reap_all reap
  reap_all-queue [] a = refl
  reap_all-queue (t ∷ ts) a =
      let items = open_items_of t a.state.work_items in
      reap_all-queue ts (reap proc t a)
      ∙ (withdraw_arms-Same proc (some t) (cancel_items proc items a)).same_queue
      ∙ (cancel_items-Same proc items a).same_queue

  pub tear_down_scope-queue :
      (q : ScopeId) (a : Advancer)
      → (tear_down_scope proc q a).queue
        ≡ filter (λ m. not (contains (scope_subtree a.state q) m.scope)) a.queue
  unfolding tear_down_scope
  tear_down_scope-queue q a = reap_all-queue _ _

  pub discard_scope-Among :
      (o : Option ScopeId) (a : Advancer) (mv : Move)
      → IsOutside o a.state mv.scope
      → Among mv a.queue
      → Among mv (discard_scope proc o a).queue
  unfolding discard_scope
  discard_scope-Among none a mv h m = m
  discard_scope-Among (some q) a mv h m =
      subst (Among mv) (sym (tear_down_scope-queue q a))
        (Among-kept _ mv a.queue m (ap not (h q refl)))

  pub discard_scope-any :
      (p : Move → Bool) (o : Option ScopeId) (a : Advancer)
      → any p a.queue ≡ false
      → any p (discard_scope proc o a).queue ≡ false
  unfolding discard_scope
  discard_scope-any p none a h = h
  discard_scope-any p (some q) a h =
      ap (any p) (tear_down_scope-queue q a) ∙ any-filter _ p a.queue h

  contains-filter :
      (p : ℕ × Token → Bool) (k : TokenId) (m : Map Token)
      → contains (keys (filter p m)) k ≡ true
      → (x : Token) × (Among (k, x) m × (p (k, x) ≡ true))
  contains-filter p k [] h = cc
  contains-filter p k ((j, t) ∷ m) h = elim (Bool-cases (p (j, t))) [
    | inl e ↦ elim (Bool-cases (j == k)) [
      | inl q ↦
          let same = (==_iff j k).0 q in
          (
            t,
            (
              subst (λ i. Among (k, t) ((i, t) ∷ m)) (sym same) first,
              ap (λ i. p (i, t)) (sym same) ∙ e,
            ),
          )
      | inr q ↦ let (x, (n, r)) = contains-filter p k m (rw (e, q) at h) in (x, (later n, r))
    ]
    | inr e ↦ let (x, (n, r)) = contains-filter p k m (rw e at h) in (x, (later n, r))
  ]

  pub discard_scope-get :
      (o : Option ScopeId) (a : Advancer) (k : TokenId) (t : Token)
      → IsOutside o a.state t.scope
      → IsSole k t a.state.tokens
      → get k (discard_scope proc o a).state.tokens ≡ some t
  unfolding discard_scope tear_down_scope
  discard_scope-get none a k t h (g, u) = g
  discard_scope-get (some q) a k t h (g, u) =
      let doomed = scope_subtree a.state q in
      let ts = keys (filter (λ e. contains doomed e.1.scope) a.state.tokens) in
      reap_all-get proc ts k _ ∙ (elim (Bool-cases (contains ts k)) [
        | inr e ↦ rw e g
        | inl e ↦
            let (x, (m, d)) = contains-filter (λ e. contains doomed e.1.scope) k a.state.tokens e in
            let same = u x m in let out = h q refl in cc
      ])
