-- ===== src/Step/Advance/Enter/Quiet.antt =====
-- The queue's loop ends with an empty queue: a node either leaves the instance active, or it froze
-- or terminated it, and both of those empty the queue.
use rbpmn.Common.{
  ◌≡◌, refl, ◌∙◌, not, ◌||◌, Option, none, some, List, [], ◌∷◌, ltb, length, ◌==◌, is_some,
}
use rbpmn.Common.Maps.{get}
use rbpmn.Process.{
  NodeIx, FlowIx, ExecutableProcess, ExecKind, Platform, start, end, terminate_end, task,
  business_rule, exclusive_gateway, parallel_gateway, error_boundary, timer_catch, message_catch,
  timer_boundary, message_boundary, event_based_gateway, sub_process, kind_of,
}
use rbpmn.State.{active, TokenId, ScopeId, root}
use rbpmn.Step.Outcome.{Advancer, Move}
use rbpmn.Step.Withdraw.Keeps.{tear_down_scope-status, withdraw_arms-Same}
use rbpmn.Step.Advance.{
  leave, leave_by, leave_single, complete_scope, complete_scope_if_empty, scope_is_empty, join_full,
  enter_join, arrived, unpark_all, choose, split,
}
use rbpmn.Step.Advance.Enter.{
  enter_exclusive, enter_parallel, enter_terminate_end, enter_kind, enter,
}
use rbpmn.Step.Advance.Enter.Arms.{
  live, drained, Ends, ends_ok, ends_fault, option-Ends, if-Ends, terminate-queue, enter_task-Ends,
  enter_timer_catch-Ends, enter_message_catch-Ends, arm_alternatives-Ends, enter_sub_process-Ends,
}

module _ (lib : Platform) (proc : ExecutableProcess) where
  leave_by-Ends :
      (flows : List FlowIx) (token : TokenId) (a : Advancer)
      → a.state.status ≡ active
      → Ends (leave_by proc flows token a)
  unfolding leave_by leave
  leave_by-Ends [] token a h = ends_fault
  leave_by-Ends (f ∷ []) token a h = ends_ok (live h)
  leave_by-Ends (f ∷ g ∷ fs) token a h = ends_fault

  leave_single-Ends :
      (token : TokenId) (ix : NodeIx) (a : Advancer)
      → a.state.status ≡ active
      → Ends (leave_single proc token ix a)
  unfolding leave_single
  leave_single-Ends token ix a h = leave_by-Ends (proc.node ix).outgoing token a h

  enter_exclusive-Ends :
      (default : Option FlowIx) (token : TokenId) (ix : NodeIx) (a : Advancer)
      → a.state.status ≡ active
      → Ends (enter_exclusive lib proc default token ix a)
  unfolding enter_exclusive leave
  enter_exclusive-Ends default token ix a h =
      option-Ends (choose proc (proc.node ix).outgoing default a.state.variables) ends_fault
        (λ f. ends_ok (live h))

  unpark_all-status :
      (ts : List TokenId) (a : Advancer) → (unpark_all ts a).state.status ≡ a.state.status
  unfolding unpark_all
  unpark_all-status [] a = refl
  unpark_all-status (t ∷ ts) a = unpark_all-status ts _

  join_full-Ends :
      (o : Option (List TokenId)) (ix : NodeIx) (a : Advancer)
      → a.state.status ≡ active
      → Ends (join_full proc o ix a)
  unfolding join_full
  join_full-Ends none ix a h = ends_ok (live h)
  join_full-Ends (some ts) ix a h = leave_single-Ends _ ix _ (unpark_all-status ts a ∙ h)

  enter_join-Ends :
      (token : TokenId) (ix : NodeIx) (via : Option FlowIx) (a : Advancer)
      → a.state.status ≡ active
      → Ends (enter_join proc token ix via a)
  unfolding enter_join
  enter_join-Ends token ix none a h = ends_fault
  enter_join-Ends token ix (some f) a h =
      if-Ends (is_some (arrived ix a.scope a.state.tokens f)) ends_fault (join_full-Ends _ ix _ h)

  split-status : (fs : List FlowIx) (a : Advancer) → (split proc fs a).state.status ≡ a.state.status
  unfolding split leave
  split-status [] a = refl
  split-status (f ∷ fs) a = split-status fs _

  enter_parallel-Ends :
      (token : TokenId) (ix : NodeIx) (via : Option FlowIx) (a : Advancer)
      → a.state.status ≡ active
      → Ends (enter_parallel lib proc token ix via a)
  unfolding enter_parallel
  enter_parallel-Ends token ix via a h =
      if-Ends (ltb 1 (length (proc.node ix).incoming)) (enter_join-Ends token ix via a h)
        (ends_ok (live (split-status (proc.node ix).outgoing _ ∙ h)))

  complete_scope-Ends :
      (s : ScopeId) (a : Advancer) → a.state.status ≡ active → Ends (complete_scope proc s a)
  unfolding complete_scope
  complete_scope-Ends s a h = option-Ends (get s a.state.scopes) ends_fault (λ closed.
      if-Ends _ ends_fault
        (leave_single-Ends _ _ _ ((withdraw_arms-Same proc (some closed.token) _).same_status ∙ h)))

  complete_scope_if_empty-Ends :
      (s : ScopeId) (a : Advancer)
      → a.state.status ≡ active
      → Ends (complete_scope_if_empty proc s a)
  unfolding complete_scope_if_empty
  complete_scope_if_empty-Ends s a h =
      if-Ends (s == root || not (scope_is_empty s a)) (ends_ok (live h)) (complete_scope-Ends s a h)

  enter_terminate_end-Ends :
      (ix : NodeIx) (a : Advancer)
      → a.state.status ≡ active
      → Ends (enter_terminate_end lib proc ix a)
  unfolding enter_terminate_end
  enter_terminate_end-Ends ix a h =
      if-Ends (a.scope == root) (ends_ok (drained (terminate-queue lib proc _)))
        (complete_scope-Ends _ _ (tear_down_scope-status proc _ _ ∙ h))

  enter_kind-Ends :
      (k : ExecKind) (token : TokenId) (ix : NodeIx) (via : Option FlowIx) (a : Advancer)
      → a.state.status ≡ active
      → Ends (enter_kind lib proc k token ix via a)
  unfolding enter_kind
  enter_kind-Ends start token ix via a h = leave_single-Ends token ix _ h
  enter_kind-Ends (business_rule d _) token ix via a h = ends_ok (live h)
  enter_kind-Ends (task k topic) token ix via a h = enter_task-Ends lib proc k topic token ix a h
  enter_kind-Ends (timer_catch due) token ix via a h =
      enter_timer_catch-Ends lib proc due token ix a h
  enter_kind-Ends (message_catch _ _) token ix via a h =
      enter_message_catch-Ends lib proc token ix a h
  enter_kind-Ends event_based_gateway token ix via a h =
      arm_alternatives-Ends lib proc (proc.node ix).outgoing token _ h
  enter_kind-Ends (sub_process child) token ix via a h =
      enter_sub_process-Ends lib proc child token ix a h
  enter_kind-Ends (timer_boundary _ _) token ix via a h = ends_fault
  enter_kind-Ends (message_boundary _ _ _) token ix via a h = ends_fault
  enter_kind-Ends (error_boundary _) token ix via a h = ends_fault
  enter_kind-Ends (exclusive_gateway d) token ix via a h = enter_exclusive-Ends d token ix a h
  enter_kind-Ends parallel_gateway token ix via a h = enter_parallel-Ends token ix via a h
  enter_kind-Ends end token ix via a h = complete_scope_if_empty-Ends _ _ h
  enter_kind-Ends terminate_end token ix via a h = enter_terminate_end-Ends ix a h

  -- One round of the loop from an active instance.
  pub enter-Ends : (mv : Move) (a : Advancer) → a.state.status ≡ active → Ends (enter lib proc mv a)
  unfolding enter
  enter-Ends mv a h = enter_kind-Ends (kind_of proc mv.node) mv.token mv.node mv.via _ h
