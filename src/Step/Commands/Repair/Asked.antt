-- ===== src/Step/Commands/Repair/Asked.antt =====
-- A repair asks again for the decisions that the freeze halted.
use mathlib.Core.Option.{some-injective}
use mathlib.Core.Path.{subst}
use rbpmn.Common.{
  Among, first, later, Among-append, Among-last, ◌≡◌, refl, sym, ap, ◌∙◌, inl, inr, false, Option,
  some, String, List, [], ◌∷◌, any, map, ◌==◌, Bool-cases,
}
use rbpmn.Common.Maps.{Map, get, get-insert}
use rbpmn.Process.{NodeIx, ExecutableProcess}
use rbpmn.State.{TokenId, Token, WaitKind, halted, in_flight, awaiting_decision, decision}
use rbpmn.Step.Outcome.{Advancer}
use rbpmn.Step.Withdraw.{
  freeze, halt_decision, owned_scope, cancel_items, cancel_attachments, open_items_of,
}
use rbpmn.Step.Withdraw.Keeps.{cancel_items-Same, withdraw_arms-Same, Same-trans}
use rbpmn.Step.Commands.Repair.Outside.{
  IsOutside, IsSole, IsOutside-same, discard_scope-any, discard_scope-get,
}
use rbpmn.Step.Commands.Repair.{resume_one, resume_each, resume_halted, is_halted}
use rbpmn.Step.Commands.Repair.Resume.{Among-filter, halt_moves-other}

module _ (proc : ExecutableProcess) where
  resume_one-reask :
      (k id : TokenId) (t : Token) (w : WaitKind) (a : Advancer)
      → Among k a.reask
      → Among k (resume_one proc id t w a).reask
  unfolding resume_one
  resume_one-reask k id t (halted (in_flight via)) a h = h
  resume_one-reask k id t (halted awaiting_decision) a h = Among-append _ h
  resume_one-reask k id t _ a h = h

  resume_each-reask :
      (k : TokenId) (ts : List (TokenId × Token)) (a : Advancer)
      → Among k a.reask
      → Among k (resume_each proc ts a).reask
  unfolding resume_each
  resume_each-reask k [] a h = h
  resume_each-reask k ((id, t) ∷ ts) a h =
      resume_each-reask k ts _ (resume_one-reask k id t t.wait a h)

  resume_each-asked :
      (k : TokenId) (t : Token) (ts : List (TokenId × Token)) (a : Advancer)
      → Among (k, record t { wait = halted awaiting_decision }) ts
      → Among k (resume_each proc ts a).reask
  unfolding resume_each resume_one
  resume_each-asked k t [] a h = elim h [ ]
  resume_each-asked k t (_ ∷ ts) a first = resume_each-reask k ts _ (Among-last k a.reask)
  resume_each-asked k t ((id, x) ∷ ts) a (later h) = resume_each-asked k t ts _ h

  get-halted :
      (k : TokenId) (t : Token) (m : Map Token)
      → get k m ≡ some t
      → get k (map (λ e. (e.0, halt_decision e.1)) m) ≡ some (halt_decision t)
  get-halted k t [] h = cc
  get-halted k t ((j, w) ∷ m) h = elim (Bool-cases (j == k)) [
    | inl e ↦ rw e (ap (λ x. some (halt_decision x)) (some-injective w t (rw e at h)))
    | inr e ↦ rw e (get-halted k t m (rw e at h))
  ]

  -- A token that waited for a decision when an instance froze is among those that are asked again,
  -- when a repair resumes the halted tokens of a state that still holds it as the freeze left it. It
  -- is not the frozen token, no move of it was queued, it has one entry among the tokens, and, if the
  -- frozen token hosts an open subprocess, which a freeze discards, it is outside it.
  pub resume_halted-asks :
      (token : TokenId) (ix : NodeIx) (c d : Option String) (a r : Advancer) (k : TokenId)
      (t : Token)
      → IsOutside (owned_scope (get token a.state.tokens)) a.state t.scope
      → (token == k) ≡ false
      → any (λ x. x.token == k) a.queue ≡ false
      → IsSole k (record t { wait = decision }) a.state.tokens
      → get k r.state.tokens ≡ get k (freeze proc token ix c d a).state.tokens
      → Among k (resume_halted proc r).reask
  unfolding resume_halted freeze
  resume_halted-asks token ix c d a r k t o n q h s =
      let b = cancel_attachments proc token a in
      let ids = open_items_of token b.state.work_items in
      let e = cancel_items proc ids b in
      let same =
        Same-trans (withdraw_arms-Same proc (some token) a) (cancel_items-Same proc ids b) in
      let owned = owned_scope (get token e.state.tokens) in
      let outside = IsOutside-same owned a.state e.state t.scope same.same_scopes (
        subst (λ m. IsOutside (owned_scope (get token m)) a.state t.scope) (sym same.same_tokens)
          o) in
      let sole = subst (IsSole k (record t { wait = decision })) (sym same.same_tokens) h in
      resume_each-asked k t _ _ (
        Among-filter (λ x. is_halted x.1.wait) k (record t { wait = halted awaiting_decision }) _
          (s
            ∙ halt_moves-other k _ _ (
                discard_scope-any proc (λ x. x.token == k) owned e
                  (ap (any (λ x. x.token == k)) same.same_queue ∙ q))
            ∙ get-halted k (record t { wait = decision }) _
                (get-insert token k _ _
                  ∙ rw n (
                      discard_scope-get proc owned e k (record t { wait = decision }) outside
                        sole)))
          refl)
