-- ===== src/Step/Claims/Moves.antt =====
-- The claims on tokens under leave, complete_scope and the parallel split (step.rs).
use mathlib.Core.Path.{subst}
use rbpmn.Common.{
  ℕ, ◌≡◌, refl, sym, ◌∙◌, Bool, true, false, not, ◌||◌, Option, none, some, is_none, List, [], ◌∷◌,
  Among, ◌==◌, ==_iff, Among-filter, if◌then◌else◌,
}
use rbpmn.Common.Maps.{get, remove, get-Among}
use rbpmn.Process.{NodeIx, FlowIx, ExecutableProcess}
use rbpmn.State.{TokenId, ScopeId, Token, ScopeState, WaitKind, root}
use rbpmn.Step.Outcome.{Advancer, Run, ok, fault, exhausted, ◌>>=◌}
use rbpmn.Step.Withdraw.{cancel_attachments, withdraw_arms}
use rbpmn.Step.Advance.{
  leave, leave_by, leave_single, complete_scope, complete_scope_if_empty, scope_is_empty, split,
}
use rbpmn.Step.Claims.{
  Claim, timer_of, subscription_of, item_of, host_of, holdings, Names, names_host, Fits, Holds,
  IsSound, HasHand, Unnamed,
}
use rbpmn.Step.Claims.Queue.{enqueue, minted_one, fresh-Hand, unpark-Hand}
use rbpmn.Step.Claims.Less.{on_option, Reduces, Reduces-trans}
use rbpmn.Step.Claims.Reduce.{withdraw_arms-Reduces, withdraw_arms-IsKept, unscoped-Reduces}

-- The state of a result, with what is queued.
abbrev pub after : Run → Advancer
after (ok a) = a
after (fault _ a) = a
after (exhausted a) = a

pub record Keeps (r : Run) : Type 0 where
  pub kept : IsSound (after r)

pub then-Keeps :
    (r : Run) {f : Advancer → Run}
    → Keeps r
    → ((a : Advancer) → IsSound a → Keeps (f a))
    → Keeps (r >>= f)
then-Keeps (ok a) p k = k a p.kept
then-Keeps (fault e a) p k = p
then-Keeps (exhausted a) p k = p

pub keep : {r : Run} → IsSound (after r) → Keeps r
keep s = record { kept = s }

pub on_test :
    (b : Bool) {x y : Run}
    → (b ≡ true → Keeps x)
    → (b ≡ false → Keeps y)
    → Keeps (if b then x else y)
on_test true p q = p refl
on_test false p q = q refl

pub some_of : {A : Type 0} (o : Option A) → is_none o ≡ false → (v : A) × (o ≡ some v)
some_of none e = cc
some_of (some v) e = (v, refl)

-- A token that waits for a scope is named by that scope and by arms only.
pub host_not_item : (s id : ℕ) (w : WaitKind) → Fits (host_of s) w → ¬ Fits (item_of id) w
host_not_item s id (WaitKind.scope k) h n = n
host_not_item s id _ h n = h

pub one_scope : (s q : ℕ) (w : WaitKind) → Fits (host_of s) w → Fits (host_of q) w → s ≡ q
one_scope s q (WaitKind.scope k) h n = sym h ∙ n
one_scope s q _ h n = absurd h

module _ (proc : ExecutableProcess) where
  pub leave-IsSound :
      (token : TokenId) (flow : FlowIx) (a : Advancer)
      → IsSound a
      → HasHand token a
      → IsSound (leave proc token flow a)
  unfolding leave
  leave-IsSound token flow a s k = enqueue _ s k

  leave_by-Keeps :
      (flows : List FlowIx) (token : TokenId) (a : Advancer)
      → IsSound a
      → HasHand token a
      → Keeps (leave_by proc flows token a)
  unfolding leave_by
  leave_by-Keeps [] token a s k = keep s
  leave_by-Keeps (f ∷ []) token a s k = keep (leave-IsSound token f a s k)
  leave_by-Keeps (f ∷ g ∷ fs) token a s k = keep s

  pub leave_single-Keeps :
      (token : TokenId) (ix : NodeIx) (a : Advancer)
      → IsSound a
      → HasHand token a
      → Keeps (leave_single proc token ix a)
  unfolding leave_single
  leave_single-Keeps token ix a s k = leave_by-Keeps (proc.node ix).outgoing token a s k

  -- What is left of the claims on a host once its scope is gone and its arms are withdrawn.
  host-Unnamed :
      (s : ScopeId) (closed : ScopeState) (t : Token) (a : Advancer)
      → IsSound a
      → Among (s, closed) a.state.scopes
      → get closed.token a.state.tokens ≡ some t
      → Unnamed
          (holdings
            (cancel_attachments proc closed.token
              (record a { state = record (a.state) { scopes = remove s a.state.scopes } })).state)
          closed.token
  unfolding withdraw_arms
  host-Unnamed s closed t a h m e c n = only c n (sub.names closed.token c n)
    where
      b : Advancer
      b = record a { state = record (a.state) { scopes = remove s a.state.scopes } }

      sub : Reduces a (withdraw_arms proc (some closed.token) b)
      sub =
          Reduces-trans (unscoped-Reduces proc (λ j. not (j == s)) a)
            (withdraw_arms-Reduces proc (some closed.token) b)

      fits : (c : Claim) → Names (holdings a.state) closed.token c → Fits c t.wait
      fits c n = subst (Holds c) e (h.held closed.token c n (λ y. y))

      only :
          (c : Claim)
          → Names (holdings (withdraw_arms proc (some closed.token) b).state) closed.token c
          → Names (holdings a.state) closed.token c
          → ⊥
      only (timer_of i) n o = withdraw_arms-IsKept proc closed.token b _ n
      only (subscription_of i) n o = withdraw_arms-IsKept proc closed.token b _ n
      only (item_of i) n o =
          host_not_item s i t.wait (fits (host_of s) (names_host s closed m refl))
            (fits (item_of i) o)
      only (host_of q) (names_host r u i y) o =
          let same =
            one_scope s q t.wait (fits (host_of s) (names_host s closed m refl))
              (fits (host_of q) o) in
          cc ((Among-filter (λ z. not (z.0 == s)) a.state.scopes i).1, (==_iff q s).1 (sym same))

  pub complete_scope-Keeps :
      (s : ScopeId) (a : Advancer) → IsSound a → Keeps (complete_scope proc s a)
  unfolding complete_scope withdraw_arms
  complete_scope-Keeps s a h =
      on_option Keeps (get s a.state.scopes) (λ _. keep h)
        (λ closed e.
          let m = get-Among s closed a.state.scopes e in
          let b : Advancer = record a {
            state = record (a.state) { scopes = remove s a.state.scopes };
          } in
          let r =
            Reduces-trans (unscoped-Reduces proc (λ j. not (j == s)) a)
              (withdraw_arms-Reduces proc (some closed.token) b) in
          let sound = r.sound none h in
          on_test (is_none (get closed.token a.state.tokens)) (λ _. keep sound)
            (λ q.
              let (t, found) = some_of (get closed.token a.state.tokens) q in
              let (left, hand) =
                unpark-Hand closed.token t sound found (host-Unnamed s closed t a h m found)
                  (λ j i y. (h.asked j i).unnamed (host_of s) (names_host s closed m (sym y))) in
              leave_single-Keeps closed.token closed.element _ left hand))

  pub complete_scope_if_empty-Keeps :
      (s : ScopeId) (a : Advancer) → IsSound a → Keeps (complete_scope_if_empty proc s a)
  unfolding complete_scope_if_empty
  complete_scope_if_empty-Keeps s a h =
      on_test (s == root || not (scope_is_empty s a)) (λ _. keep h)
        (λ _. complete_scope-Keeps s a h)

  pub split-IsSound :
      (flows : List FlowIx) (a : Advancer) → IsSound a → IsSound (split proc flows a)
  unfolding split
  split-IsSound [] a s = s
  split-IsSound (f ∷ fs) a s =
      split-IsSound fs _ (leave-IsSound a.state.next_token f _ (minted_one s) (fresh-Hand s))
