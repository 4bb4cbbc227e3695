-- ===== src/Step/Claims/Boundary.antt =====
-- The claims on tokens under interrupt_host, spawn_side_token and take_gateway_path (step.rs).
use mathlib.Core.Path.{subst}
use rbpmn.Common.{ℕ, ◌≡◌, refl, sym, ap, Bool, false, not, Option, none, some, ◌==◌, if◌then◌else◌}
use rbpmn.Common.Maps.{get}
use rbpmn.Process.{NodeIx, ExecutableProcess}
use rbpmn.State.{TokenId, Token, WaitKind, work_item, message}
use rbpmn.Step.Outcome.{Advancer, Run, ok, fault, ◌>>=◌, in_scope, started, completed, lost_item}
use rbpmn.Step.Withdraw.{cancel_work_item, withdraw_arms, discard_scope, owned_scope}
use rbpmn.Step.Advance.{unpark}
use rbpmn.Step.Boundary.{
  interrupt_to_boundary, end_wait, interrupt_host, spawn_side_token, winning_flow,
  take_gateway_path,
}
use rbpmn.Step.Claims.{
  Claim, timer_of, subscription_of, item_of, host_of, holdings, Names, Fits, Unnamed, IsSound,
}
use rbpmn.Step.Claims.Update.{shrink}
use rbpmn.Step.Claims.Queue.{minted_one, fresh-Hand, unpark-Hand}
use rbpmn.Step.Claims.Less.{on_option, Reduces-trans, Names-closed}
use rbpmn.Step.Claims.Reduce.{
  withdraw_arms-Reduces, withdraw_arms-IsKept, discard_scope-Reduces, discard_scope-gone,
}
use rbpmn.Step.Claims.Halt.{scope_of_fit}
use rbpmn.Step.Claims.Moves.{Keeps, keep, leave_single-Keeps}
use rbpmn.Step.Claims.Release.{Unasked, Fits-of, release, rescoped, unsubscribed, Interruptible}

-- A host's own wait, ended.
data Ended (k : TokenId) : Run → Type 0 where
  ended_ok : {a : Advancer} → Interruptible k a → Ended k (ok a)
  ended_fault : {e : _} {a : Advancer} → IsSound a → Ended k (fault e a)

module _ (proc : ExecutableProcess) where
  -- Nothing names a token once its arms are withdrawn, if no item and no scope did.
  pub disarmed :
      (k : TokenId) (b : Advancer)
      → ((q : ℕ) → ¬ Names (holdings b.state) k (item_of q))
      → ((q : ℕ) → ¬ Names (holdings b.state) k (host_of q))
      → Unnamed (holdings (withdraw_arms proc (some k) b).state) k
  disarmed k b item host (timer_of i) n = withdraw_arms-IsKept proc k b _ n
  disarmed k b item host (subscription_of i) n = withdraw_arms-IsKept proc k b _ n
  disarmed k b item host (item_of i) n =
      item i ((withdraw_arms-Reduces proc (some k) b).names k _ n)
  disarmed k b item host (host_of i) n =
      host i ((withdraw_arms-Reduces proc (some k) b).names k _ n)

  boundary-Unnamed :
      (k : TokenId) (t : Token) (a b : Advancer)
      → Interruptible k a
      → get k a.state.tokens ≡ some t
      → ((j : TokenId) (c : Claim) → Names (holdings b.state) j c → Names (holdings a.state) j c)
      → ((q : ℕ) → owned_scope (some t) ≡ some q → ¬ Names (holdings b.state) k (host_of q))
      → Unnamed (holdings (withdraw_arms proc (some k) b).state) k
  boundary-Unnamed k t a b h e sub gone =
      disarmed k b (λ i n. h.no_item i (sub k _ n))
        (λ q n. gone q (scope_of_fit q t.wait (Fits-of a (host_of q) h.sound e (sub k _ n))) n)

  discarded :
      (k q : ℕ) (o : Option ℕ) (a : Advancer)
      → o ≡ some q
      → ¬ Names (holdings (discard_scope proc o a).state) k (host_of q)
  discarded k q none a e n = cc
  discarded k q (some r) a e n =
      discard_scope-gone proc q a k
        (subst (λ o. Names (holdings (discard_scope proc o a).state) k (host_of q)) e n)

  pub interrupt_to_boundary-Keeps :
      (k : TokenId) (boundary : NodeIx) (a : Advancer)
      → Interruptible k a
      → Keeps (interrupt_to_boundary proc k boundary a)
  unfolding interrupt_to_boundary
  interrupt_to_boundary-Keeps k boundary a h =
      on_option Keeps (get k a.state.tokens) (λ _. keep h.sound)
        (λ t e.
          let b = in_scope t.scope (discard_scope proc (owned_scope (some t)) (unpark k a)) in
          let r =
            rescoped t.scope (discard_scope-Reduces proc (owned_scope (some t)) (unpark k a)) in
          let (s, hand) =
            release k t a (withdraw_arms proc (some k) b) h.sound e h.unasked
              (Reduces-trans r (withdraw_arms-Reduces proc (some k) b))
              (boundary-Unnamed k t a b h e r.names
                (λ q y. discarded k q (owned_scope (some t)) (unpark k a) y)) in
          leave_single-Keeps proc k boundary
            (completed proc boundary (started proc boundary (withdraw_arms proc (some k) b))) s
            hand)

  end_wait-Ended :
      (k : TokenId) (t : Token) (w : WaitKind) (a : Advancer)
      → IsSound a
      → get k a.state.tokens ≡ some t
      → t.wait ≡ w
      → Unasked k a
      → Ended k (end_wait proc w a)
  unfolding end_wait cancel_work_item
  end_wait-Ended k t (work_item id) a s e y free =
      on_option {B = Bool × Advancer}
        (λ r. Ended k (let (found, b) = r in if found then ok b else fault lost_item b))
        (get id a.state.work_items) (λ _. ended_fault s)
        (λ item q. ended_ok (record {
          sound = shrink s (λ j c n. (Names-closed id (record item { is_open = false }) refl n).0);
          no_item = λ i n.
              let (m, other) = Names-closed id (record item { is_open = false }) refl n in
              other (ap item_of (sym (subst (Fits (item_of i)) y (Fits-of a (item_of i) s e m))));
          unasked = free;
        }))
  end_wait-Ended k t (message id) a s e y free =
      on_option (Ended k) (get id a.state.subscriptions) (λ _. ended_fault s)
        (λ host q. ended_ok (record {
          sound = shrink s (unsubscribed (λ j. not (j == id)));
          no_item = λ i n.
              subst (Fits (item_of i)) y
                (Fits-of a (item_of i) s e (unsubscribed (λ j. not (j == id)) k _ n));
          unasked = free;
        }))
  end_wait-Ended k t (WaitKind.scope q) a s e y free = ended_ok (record {
    sound = s;
    no_item = λ i n. subst (Fits (item_of i)) y (Fits-of a (item_of i) s e n);
    unasked = free;
  })
  end_wait-Ended k t _ a s e y free = ended_fault s

  Ended-then :
      {k : TokenId} {r : Run} {f : Advancer → Run}
      → Ended k r
      → ((a : Advancer) → Interruptible k a → Keeps (f a))
      → Keeps (r >>= f)
  Ended-then (ended_ok h) p = p _ h
  Ended-then (ended_fault s) p = keep s

  pub interrupt_host-Keeps :
      (k : TokenId) (boundary : NodeIx) (a : Advancer)
      → IsSound a
      → Unasked k a
      → Keeps (interrupt_host proc k boundary a)
  unfolding interrupt_host
  interrupt_host-Keeps k boundary a s free =
      on_option Keeps (get k a.state.tokens) (λ _. keep s)
        (λ t e.
          Ended-then (end_wait-Ended k t t.wait a s e refl free)
            (interrupt_to_boundary-Keeps k boundary))

  pub spawn_side_token-Keeps :
      (boundary : NodeIx) (a : Advancer) → IsSound a → Keeps (spawn_side_token proc boundary a)
  unfolding spawn_side_token
  spawn_side_token-Keeps boundary a s =
      leave_single-Keeps proc _ boundary _ (minted_one s) (fresh-Hand s)

  pub take_gateway_path-Keeps :
      (k : TokenId) (t : Token) (gateway winner : NodeIx) (a : Advancer)
      → IsSound a
      → get k a.state.tokens ≡ some t
      → Unnamed (holdings a.state) k
      → Unasked k a
      → Keeps (take_gateway_path proc k gateway winner a)
  unfolding take_gateway_path
  take_gateway_path-Keeps k t gateway winner a s e free unasked =
      let (left, hand) = unpark-Hand k t s e free unasked in
      on_option Keeps (winning_flow proc (proc.node gateway).outgoing winner) (λ _. keep left)
        (λ f _. leave_single-Keeps proc k winner _ left hand)
