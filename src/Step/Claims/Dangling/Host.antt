-- ===== src/Step/Claims/Dangling/Host.antt =====
-- The faults of interrupt_host, interrupt_to_boundary and take_gateway_path (step.rs).
use mathlib.Core.Path.{subst}
use rbpmn.Common.{◌≡◌, refl, sym, ◌∙◌, Bool, false, Option, none, some, if◌then◌else◌}
use rbpmn.Common.Maps.{get}
use rbpmn.Process.{ExecutableProcess, NodeIx}
use rbpmn.State.{TokenId, Token, WaitKind, work_item, message}
use rbpmn.Step.Outcome.{Advancer, Run, ok, fault, ◌>>=◌, Fault, lost_item}
use rbpmn.Step.Withdraw.{cancel_work_item}
use rbpmn.Step.Boundary.{
  interrupt_to_boundary, end_wait, interrupt_host, take_gateway_path, winning_flow,
}
use rbpmn.Step.Claims.Less.{on_option}
use rbpmn.Step.Claims.Dangling.Inner.{is_dangling, Sure, sure_fault, leave_single-Sure}

-- The waits of a token that hosts a boundary.
abbrev pub IsHostWait : WaitKind → Type 0
IsHostWait (work_item _) = Unit
IsHostWait (message _) = Unit
IsHostWait (WaitKind.scope _) = Unit
IsHostWait _ = ⊥

some_inj : {A : Type 0} {x y : A} → some x ≡ some y → x ≡ y
some_inj e = cc

-- The token is parked where the walk that follows looks for it.
data EndSure (k : TokenId) : Run → Type 0 where
  end_ok : {a : Advancer} {t : Token} → get k a.state.tokens ≡ some t → EndSure k (ok a)
  end_fault : {e : Fault} {a : Advancer} → is_dangling e ≡ false → EndSure k (fault e a)

end_then :
    {k : TokenId} {r : Run} {f : Advancer → Run}
    → EndSure k r
    → ((a : Advancer) (t : Token) → get k a.state.tokens ≡ some t → Sure (f a))
    → Sure (r >>= f)
end_then (end_ok e) p = p _ _ e
end_then (end_fault e) p = sure_fault e

pub parked_option :
    {A : Type 0} (o : Option A) (x : Run) {v : A} {f : A → Run}
    → o ≡ some v
    → ((u : A) → o ≡ some u → Sure (f u))
    → Sure (elim o [ none ↦ x | some u ↦ f u ])
parked_option none x e p = cc
parked_option (some u) x e p = p u refl

module _ (proc : ExecutableProcess) where
  interrupt_to_boundary-Sure :
      (k : TokenId) (boundary : NodeIx) (a : Advancer) (t : Token)
      → get k a.state.tokens ≡ some t
      → Sure (interrupt_to_boundary proc k boundary a)
  unfolding interrupt_to_boundary
  interrupt_to_boundary-Sure k boundary a t e =
      parked_option (get k a.state.tokens) _ e (λ u _. leave_single-Sure proc k boundary _)

  end_wait-EndSure :
      (k : TokenId) (t : Token) (w : WaitKind) (a : Advancer)
      → get k a.state.tokens ≡ some t
      → IsHostWait w
      → EndSure k (end_wait proc w a)
  unfolding end_wait cancel_work_item
  end_wait-EndSure k t (work_item id) a e i =
      on_option {B = Bool × Advancer}
        (λ r. EndSure k (let (found, b) = r in if found then ok b else fault lost_item b))
        (get id a.state.work_items) (λ _. end_fault refl) (λ item _. end_ok e)
  end_wait-EndSure k t (message id) a e i =
      on_option (EndSure k) (get id a.state.subscriptions) (λ _. end_fault refl) (λ sub _. end_ok e)
  end_wait-EndSure k t (WaitKind.scope q) a e i = end_ok e
  end_wait-EndSure k t _ a e i = absurd i

  pub interrupt_host-Sure :
      (k : TokenId) (boundary : NodeIx) (a : Advancer) (t : Token)
      → get k a.state.tokens ≡ some t
      → IsHostWait t.wait
      → Sure (interrupt_host proc k boundary a)
  unfolding interrupt_host
  interrupt_host-Sure k boundary a t e i = parked_option (get k a.state.tokens) _ e (λ u q.
      end_then
        (end_wait-EndSure k u u.wait a q
          (subst (λ (v : Token). IsHostWait v.wait) (some_inj (sym e ∙ q)) i))
        (interrupt_to_boundary-Sure k boundary))

  pub take_gateway_path-Sure :
      (k : TokenId) (gateway winner : NodeIx) (a : Advancer)
      → Sure (take_gateway_path proc k gateway winner a)
  unfolding take_gateway_path
  take_gateway_path-Sure k gateway winner a =
      on_option Sure (winning_flow proc (proc.node gateway).outgoing winner) (λ _. sure_fault refl)
        (λ f _. leave_single-Sure proc k winner _)
