-- ===== src/Step/Withdraw/Keeps.antt =====
-- What cancelling items and withdrawing arms leave as it was.
use rbpmn.Common.{ℕ, ◌≡◌, refl, ◌∙◌, Option, none, some, List, [], ◌∷◌, arith}
use rbpmn.Process.{ExecutableProcess}
use rbpmn.State.{TokenId, ScopeId}
use rbpmn.Step.Outcome.{Advancer}
use rbpmn.Step.Withdraw.{
  cancel_work_item, cancel_items, withdraw_arms, reap, reap_all, tear_down_scope, discard_scope,
  open_items_of,
}

-- Everything but the work items, the arms and the events.
pub record Same (a b : Advancer) : Type 0 where
  pub same_status : b.state.status ≡ a.state.status
  pub same_tokens : b.state.tokens ≡ a.state.tokens
  pub same_scopes : b.state.scopes ≡ a.state.scopes
  pub same_queue : b.queue ≡ a.queue
  pub same_scope : b.scope ≡ a.scope

pub Same-trans : {a b c : Advancer} → Same a b → Same b c → Same a c
Same-trans h k = record {
  same_status = k.same_status ∙ h.same_status;
  same_tokens = k.same_tokens ∙ h.same_tokens;
  same_scopes = k.same_scopes ∙ h.same_scopes;
  same_queue = k.same_queue ∙ h.same_queue;
  same_scope = k.same_scope ∙ h.same_scope;
}

Same-refl : (a : Advancer) → Same a a
Same-refl a = record {
  same_status = refl;
  same_tokens = refl;
  same_scopes = refl;
  same_queue = refl;
  same_scope = refl;
}

module _ (proc : ExecutableProcess) where
  pub cancel_work_item-Same : (id : ℕ) (a : Advancer) → Same a (cancel_work_item proc id a).1
  unfolding cancel_work_item
  cancel_work_item-Same id a = ground arith

  pub cancel_items-Same : (ids : List ℕ) (a : Advancer) → Same a (cancel_items proc ids a)
  unfolding cancel_items
  cancel_items-Same [] a = Same-refl a
  cancel_items-Same (id ∷ ids) a =
      Same-trans (cancel_work_item-Same id a) (cancel_items-Same ids (cancel_work_item proc id a).1)

  pub withdraw_arms-Same :
      (token : Option TokenId) (a : Advancer) → Same a (withdraw_arms proc token a)
  unfolding withdraw_arms
  withdraw_arms-Same token a = record {
    same_status = refl;
    same_tokens = refl;
    same_scopes = refl;
    same_queue = refl;
    same_scope = refl;
  }

  -- Reaping keeps the status, the scopes and the queue.
  pub reap-status : (t : TokenId) (a : Advancer) → (reap proc t a).state.status ≡ a.state.status
  unfolding reap
  reap-status t a =
      let items = open_items_of t a.state.work_items in
      (withdraw_arms-Same (some t) (cancel_items proc items a)).same_status
      ∙ (cancel_items-Same items a).same_status

  pub reap_all-status :
      (ts : List TokenId) (a : Advancer) → (reap_all proc ts a).state.status ≡ a.state.status
  unfolding reap_all
  reap_all-status [] a = refl
  reap_all-status (t ∷ ts) a = reap_all-status ts (reap proc t a) ∙ reap-status t a

  pub tear_down_scope-status :
      (top : ScopeId) (a : Advancer) → (tear_down_scope proc top a).state.status ≡ a.state.status
  unfolding tear_down_scope
  tear_down_scope-status top a = reap_all-status _ _

  pub discard_scope-status :
      (c : Option ScopeId) (a : Advancer) → (discard_scope proc c a).state.status ≡ a.state.status
  unfolding discard_scope
  discard_scope-status none a = refl
  discard_scope-status (some c) a = tear_down_scope-status c a
