-- ===== src/Step/Commands/Repair/Resume.antt =====
-- A repair puts back into the queue what the freeze took out of it.
use mathlib.Core.Option.{some-injective}
use mathlib.Core.Path.{subst}
use rbpmn.Common.{
  Among, first, later, Among-append, Among-last, ℕ, ◌≡◌, refl, sym, ◌∙◌, inl, inr, Bool, true,
  false, Option, none, some, String, List, [], ◌∷◌, arith, any, filter, ◌==◌, ==_iff, Bool-cases,
  if◌then◌else◌,
}
use rbpmn.Common.Maps.{Map, get, insert, get-insert}
use rbpmn.Process.{NodeIx, ExecutableProcess}
use rbpmn.State.{TokenId, ScopeId, Token, WaitKind, halted, in_flight, awaiting_decision}
use rbpmn.Step.Outcome.{Advancer, Move}
use rbpmn.Step.Withdraw.{
  freeze, halt_moves, owned_scope, discard_scope, cancel_items, cancel_attachments, open_items_of,
}
use rbpmn.Step.Withdraw.Keeps.{cancel_items-Same, withdraw_arms-Same, Same-trans}
use rbpmn.Step.Commands.Repair.Outside.{
  IsOutside, IsOutside-same, any-filter, tear_down_scope-queue, discard_scope-Among,
}
use rbpmn.Step.Commands.Repair.{resume_one, resume_each, resume_halted, is_halted}

-- No two moves of the queue are of one token.
unfoldable pub IsDistinct : List Move → Type 0
IsDistinct [] = Unit {0}
IsDistinct (mv ∷ q) = (any (λ x. x.token == mv.token) q ≡ false) × IsDistinct q

IsDistinct-filter : (p : Move → Bool) (q : List Move) → IsDistinct q → IsDistinct (filter p q)
unfolding IsDistinct
IsDistinct-filter p [] n = tt
IsDistinct-filter p (mv ∷ q) (f, n) = elim (Bool-cases (p mv)) [
  | inl e ↦ rw e (any-filter p (λ x. x.token == mv.token) q f, IsDistinct-filter p q n)
  | inr e ↦ rw e (IsDistinct-filter p q n)
]

-- A move, as a freeze parks it.
abbrev halted_at : Move → Token
halted_at mv = record { node = mv.node; scope = mv.scope; wait = halted (in_flight mv.via) }

pub halt_moves-other :
    (k : TokenId) (q : List Move) (m : Map Token)
    → any (λ x. x.token == k) q ≡ false
    → get k (halt_moves q m) ≡ get k m
unfolding halt_moves
halt_moves-other k [] m h = refl
halt_moves-other k (mv ∷ q) m h = ground (
  arith,
  halt_moves-other k q (insert mv.token (halted_at mv) m),
  get-insert mv.token k (halted_at mv) m,
)

halt_moves-get :
    (mv : Move) (q : List Move) (m : Map Token)
    → IsDistinct q
    → Among mv q
    → get mv.token (halt_moves q m) ≡ some (halted_at mv)
unfolding halt_moves IsDistinct
halt_moves-get mv [] m d h = elim h [ ]
halt_moves-get mv (_ ∷ q) m d first =
    halt_moves-other mv.token q _ d.0 ∙ get-insert mv.token mv.token (halted_at mv) m ∙ ground arith
halt_moves-get mv (x ∷ q) m d (later h) = halt_moves-get mv q _ d.1 h

if-later :
    {A : Type 0} {x : A} (y : A) {xs : List A} (b : Bool)
    → Among x xs
    → Among x (if b then y ∷ xs else xs)
if-later y true h = later h
if-later y false h = h

if-first :
    {A : Type 0} {x y : A} (xs : List A) (b : Bool)
    → b ≡ true
    → y ≡ x
    → Among x (if b then y ∷ xs else xs)
if-first {y = y} xs true e h = subst (λ z. Among z (y ∷ xs)) h first
if-first xs false e h = cc

pub Among-filter :
    (p : ℕ × Token → Bool) (k : ℕ) (t : Token) (m : Map Token)
    → get k m ≡ some t
    → p (k, t) ≡ true
    → Among (k, t) (filter p m)
Among-filter p k t [] h q = cc
Among-filter p k t ((j, w) ∷ m) h q = elim (Bool-cases (j == k)) [
  | inl e ↦
      let same = (==_iff j k).0 e in
      let value = some-injective w t (rw e at h) in
      if-first (filter p m) (p (j, w)) (cc (q, same, value)) (cc (same, value))
  | inr e ↦ if-later (j, w) (p (j, w)) (Among-filter p k t m (rw e at h) q)
]

module _ (proc : ExecutableProcess) where
  resume_one-Among :
      (mv : Move) (id : TokenId) (t : Token) (w : WaitKind) (a : Advancer)
      → Among mv a.queue
      → Among mv (resume_one proc id t w a).queue
  unfolding resume_one
  resume_one-Among mv id t (halted (in_flight via)) a h = Among-append _ h
  resume_one-Among mv id t (halted awaiting_decision) a h = h
  resume_one-Among mv id t _ a h = h

  resume_each-Among :
      (mv : Move) (ts : List (TokenId × Token)) (a : Advancer)
      → Among mv a.queue
      → Among mv (resume_each proc ts a).queue
  unfolding resume_each
  resume_each-Among mv [] a h = h
  resume_each-Among mv ((id, t) ∷ ts) a h =
      resume_each-Among mv ts _ (resume_one-Among mv id t t.wait a h)

  resume_each-queued :
      (mv : Move) (ts : List (TokenId × Token)) (a : Advancer)
      → Among (mv.token, halted_at mv) ts
      → Among mv (resume_each proc ts a).queue
  unfolding resume_each resume_one
  resume_each-queued mv [] a h = elim h [ ]
  resume_each-queued mv (_ ∷ ts) a first = resume_each-Among mv ts _ (Among-last mv a.queue)
  resume_each-queued mv ((id, t) ∷ ts) a (later h) = resume_each-queued mv ts _ h

  discard_scope-IsDistinct :
      (o : Option ScopeId) (a : Advancer)
      → IsDistinct a.queue
      → IsDistinct (discard_scope proc o a).queue
  unfolding discard_scope
  discard_scope-IsDistinct none a n = n
  discard_scope-IsDistinct (some q) a n =
      subst IsDistinct (sym (tear_down_scope-queue proc q a)) (IsDistinct-filter _ a.queue n)

  -- A move that was queued when an instance froze is queued again, with its node, its flow and its
  -- scope, when a repair resumes the halted tokens of a state that still holds that move's token as
  -- the freeze parked it, where no two of the queued moves are of one token and, if the frozen token
  -- hosts an open subprocess, which a freeze discards, the move is outside it.
  pub resume_halted-freeze :
      (token : TokenId) (ix : NodeIx) (c d : Option String) (a r : Advancer) (mv : Move)
      → IsOutside (owned_scope (get token a.state.tokens)) a.state mv.scope
      → IsDistinct a.queue
      → Among mv a.queue
      → get mv.token r.state.tokens ≡ get mv.token (freeze proc token ix c d a).state.tokens
      → Among mv (resume_halted proc r).queue
  unfolding resume_halted freeze
  resume_halted-freeze token ix c d a r mv o n h k =
      let b = cancel_attachments proc token a in
      let ids = open_items_of token b.state.work_items in
      let e = cancel_items proc ids b in
      let same =
        Same-trans (withdraw_arms-Same proc (some token) a) (cancel_items-Same proc ids b) in
      let owned = owned_scope (get token e.state.tokens) in
      let outside = IsOutside-same owned a.state e.state mv.scope same.same_scopes (
        subst (λ m. IsOutside (owned_scope (get token m)) a.state mv.scope) (sym same.same_tokens)
          o) in
      resume_each-queued mv _ _ (
        Among-filter (λ x. is_halted x.1.wait) mv.token (halted_at mv) _
          (k
            ∙ halt_moves-get mv _ _
                (discard_scope-IsDistinct owned e (subst IsDistinct (sym same.same_queue) n))
                (discard_scope-Among proc owned e mv outside
                  (subst (Among mv) (sym same.same_queue) h)))
          refl)
