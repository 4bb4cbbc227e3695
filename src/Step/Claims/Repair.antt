-- ===== src/Step/Claims/Repair.antt =====
-- The claims on tokens under the dispositions of a repair (step.rs).
use mathlib.Core.Path.{subst}
use rbpmn.Common.{
  ℕ, ◌≡◌, refl, ◌∙◌, Bool, true, false, not, ◌||◌, Option, none, some, is_none, String, List, [],
  ◌∷◌, Among, nowhere, ◌==◌, if◌then◌else◌,
}
use rbpmn.Common.Maps.{get}
use rbpmn.Json.{Value}
use rbpmn.Json.Paths.{assign}
use rbpmn.Event.{Event}
use rbpmn.Process.{
  NodeIx, FlowIx, ExecutableProcess, ExecKind, Platform, business_rule, kind_of, resume_point,
}
use rbpmn.State.{InstanceState, TokenId, ScopeId, Token, incident, active, root}
use rbpmn.Step.Outcome.{
  Advancer, Disposition, retry, advance, divert, abandon, abandon_instance, Run, ok, fault,
  exhausted, ◌>>=◌, in_scope, completed,
}
use rbpmn.Step.Withdraw.{terminate, withdraw_arms, owned_scope}
use rbpmn.Step.Advance.{
  leave, leave_by, leave_single, complete_scope, complete_scope_if_empty, scope_is_empty, unpark,
}
use rbpmn.Step.Advance.Enter.{run}
use rbpmn.Step.Boundary.{catcher, interrupt_to_boundary}
use rbpmn.Step.Commands.Repair.{
  is_abandon_instance, write_answer, divert_to, dispose, resume_halted, patch_of, begin_repair,
  carry_out,
}
use rbpmn.Step.Claims.{item_of, holdings, Names, Fits, Unnamed, IsSound, IsTended, HasHand}
use rbpmn.Step.Claims.Queue.{enqueue, unpark-Hand}
use rbpmn.Step.Claims.Less.{on_option}
use rbpmn.Step.Claims.Reduce.{cancel_items-Reduces, discard_scope-Reduces}
use rbpmn.Step.Claims.Stop.{terminate-IsSound}
use rbpmn.Step.Claims.Moves.{
  after, Keeps, keep, on_test, leave_single-Keeps, complete_scope_if_empty-Keeps,
}
use rbpmn.Step.Claims.Enter.{run-Keeps}
use rbpmn.Step.Claims.Release.{Fits-of, none_at_incident}
use rbpmn.Step.Claims.Boundary.{interrupt_to_boundary-Keeps}
use rbpmn.Step.Claims.Catcher.{catcher-no_item}
use rbpmn.Step.Claims.Items.{patched}
use rbpmn.Step.Claims.Resume.{resume_halted-IsSound}

either : (P : Run → Type 0) (b : Bool) {x y : Run} → P x → P y → P (if b then x else y)
either P true p q = p
either P false p q = q

-- A disposition's result, before anything resumes.
data Plain : Run → Type 0 where
  plain_ok : {a : Advancer} → IsSound a → a.reask ≡ [] → Plain (ok a)
  plain_fault : {e : _} {a : Advancer} → IsSound a → Plain (fault e a)
  plain_exhausted : {a : Advancer} → IsSound a → Plain (exhausted a)

Plain-of : (r : Run) → Keeps r → (after r).reask ≡ [] → Plain r
Plain-of (ok a) k e = plain_ok k.kept e
Plain-of (fault f a) k e = plain_fault k.kept
Plain-of (exhausted a) k e = plain_exhausted k.kept

-- What holds whatever the variables are, holds after an answer is written.
answered :
    (P : Advancer → Type 0) (proc : ExecutableProcess) (k : ExecKind) (answer : Option Value)
    (a : Advancer)
    → ((v : Value) → P (record a { state = record (a.state) { variables = v } }))
    → P (write_answer proc k answer a)
unfolding write_answer
answered P proc (business_rule _ result) (some v) a h = h (assign a.state.variables result v)
answered P proc _ _ a h = h a.state.variables

patched_for :
    (P : Advancer → Type 0) (proc : ExecutableProcess) (d : Disposition) (a : Advancer)
    → ((v : Value) (es : List Event)
        → P (record a { state = record (a.state) { variables = v }; events = es }))
    → P (patch_of proc d a)
unfolding patch_of
patched_for P proc (retry patch) a h = patched P patch a h
patched_for P proc (advance patch _) a h = patched P patch a h
patched_for P proc _ a h = h a.state.variables a.events

module _ (proc : ExecutableProcess) where
  leave_by-reask :
      (flows : List FlowIx) (token : TokenId) (a : Advancer)
      → (after (leave_by proc flows token a)).reask ≡ a.reask
  unfolding leave_by leave
  leave_by-reask [] token a = refl
  leave_by-reask (f ∷ []) token a = refl
  leave_by-reask (f ∷ g ∷ fs) token a = refl

  leave_single-reask :
      (token : TokenId) (ix : NodeIx) (a : Advancer)
      → (after (leave_single proc token ix a)).reask ≡ a.reask
  unfolding leave_single
  leave_single-reask token ix a = leave_by-reask (proc.node ix).outgoing token a

  complete_scope-reask :
      (s : ScopeId) (a : Advancer) → (after (complete_scope proc s a)).reask ≡ a.reask
  unfolding complete_scope withdraw_arms
  complete_scope-reask s a =
      on_option (λ r. (after r).reask ≡ a.reask) (get s a.state.scopes) (λ _. refl)
        (λ c e.
          either (λ r. (after r).reask ≡ a.reask) (is_none (get c.token a.state.tokens)) refl
            (leave_single-reask c.token c.element _))

  complete_scope_if_empty-reask :
      (s : ScopeId) (a : Advancer) → (after (complete_scope_if_empty proc s a)).reask ≡ a.reask
  unfolding complete_scope_if_empty
  complete_scope_if_empty-reask s a =
      either (λ r. (after r).reask ≡ a.reask) (s == root || not (scope_is_empty s a)) refl
        (complete_scope-reask s a)

  interrupt_to_boundary-reask :
      (token : TokenId) (boundary : NodeIx) (a : Advancer)
      → (after (interrupt_to_boundary proc token boundary a)).reask ≡ a.reask
  unfolding interrupt_to_boundary withdraw_arms
  interrupt_to_boundary-reask token boundary a =
      on_option (λ r. (after r).reask ≡ a.reask) (get token a.state.tokens) (λ _. refl)
        (λ t e.
          leave_single-reask token boundary _
          ∙ (discard_scope-Reduces proc (owned_scope (some t)) (unpark token a)).same_asked)

  terminate-reask : (a : Advancer) → (terminate proc a).reask ≡ a.reask
  unfolding terminate withdraw_arms
  terminate-reask a = (cancel_items-Reduces proc _ a).same_asked

  -- The cause of the incident, as the repair begins.
  record Cause (k : TokenId) (t : Token) (s : InstanceState) (a : Advancer) : Type 0 where
    sound : IsSound a
    parked : get k a.state.tokens ≡ some t
    waits : t.wait ≡ incident
    asks : a.reask ≡ []
    same : holdings s ≡ holdings a.state

  Cause-Unnamed :
      (k : TokenId) (t : Token) (s : InstanceState) (a : Advancer)
      → Cause k t s a
      → Unnamed (holdings a.state) k
  Cause-Unnamed k t s a h c n =
      none_at_incident c (subst (Fits c) h.waits (Fits-of a c h.sound h.parked n))

  Cause-taken :
      (k : TokenId) (t : Token) (s : InstanceState) (a : Advancer)
      → Cause k t s a
      → IsSound (unpark k a) × HasHand k (unpark k a)
  Cause-taken k t s a h =
      unpark-Hand k t h.sound h.parked (Cause-Unnamed k t s a h)
        (λ j i. nowhere (subst (Among j) h.asks i))

  divert_to-Plain :
      (o : Option (TokenId × NodeIx)) (a : Advancer)
      → IsSound a
      → a.reask ≡ []
      → ((k : TokenId) (b : NodeIx)
          → o ≡ some (k, b)
          → (id : ℕ) → ¬ Names (holdings a.state) k (item_of id))
      → Plain (divert_to proc o a)
  unfolding divert_to
  divert_to-Plain none a s e h = plain_fault s
  divert_to-Plain (some (k, b)) a s e h =
      Plain-of _
        (interrupt_to_boundary-Keeps proc k b a (record {
          sound = s;
          no_item = h k b refl;
          unasked = λ j i. nowhere (subst (Among j) e i);
        }))
        (interrupt_to_boundary-reask k b a ∙ e)

  dispose-Plain :
      (d : Disposition) (k : TokenId) (t : Token) (s : InstanceState) (a : Advancer)
      → Cause k t s a
      → Plain (dispose proc d k t s a)
  unfolding dispose
  dispose-Plain (retry _) k t s a h =
      let (left, hand) = Cause-taken k t s a h in plain_ok (enqueue _ left hand) h.asks
  dispose-Plain (advance _ answer) k t s a h =
      let (left, hand) = Cause-taken k t s a h in
      let resume = resume_point proc t.node in
      answered (λ b. Plain (leave_single proc k resume (completed proc resume b))) proc
        (kind_of proc resume) answer (unpark k a)
        (λ v.
          Plain-of _ (leave_single-Keeps proc k resume _ left hand)
            (leave_single-reask k resume _ ∙ h.asks))
  dispose-Plain (divert code) k t s a h =
      divert_to-Plain (catcher proc s (resume_point proc t.node) k t.scope code) a h.sound h.asks
        (λ j b e.
          catcher-no_item proc a s (resume_point proc t.node) k t.scope code j b h.sound h.same
            (λ id n. Cause-Unnamed k t s a h (item_of id) n) e)
  dispose-Plain abandon k t s a h =
      Plain-of _ (complete_scope_if_empty-Keeps proc t.scope (unpark k a) (Cause-taken k t s a h).0)
        (complete_scope_if_empty-reask t.scope (unpark k a) ∙ h.asks)
  dispose-Plain abandon_instance k t s a h =
      Plain-of (ok (terminate proc a)) (keep (terminate-IsSound proc a h.sound))
        (terminate-reask a ∙ h.asks)

  Plain-then :
      {r : Run} {f : Advancer → Run}
      → Plain r
      → ((a : Advancer) → IsSound a → a.reask ≡ [] → Keeps (f a))
      → Keeps (r >>= f)
  Plain-then (plain_ok s e) p = p _ s e
  Plain-then (plain_fault s) p = keep s
  Plain-then (plain_exhausted s) p = keep s

  pub carry_out-Keeps :
      (lib : Platform) (fuel n : ℕ) (d : Disposition) (reason : String) (cause : TokenId)
      (t : Token) (s : InstanceState)
      → IsTended s
      → get cause s.tokens ≡ some t
      → t.wait ≡ incident
      → Keeps (carry_out proc lib fuel n d reason cause t s)
  unfolding carry_out begin_repair
  carry_out-Keeps lib fuel n d reason cause t s h e w =
      patched_for
        (λ y.
          let a = in_scope t.scope (record y { state = record (y.state) { status = active } }) in
          Keeps (
            if is_abandon_instance d
            then ok (terminate proc a)
            else dispose proc d cause t s a >>= λ b. run lib proc fuel (resume_halted proc b)))
        proc d _
        (λ v es.
          on_test (is_abandon_instance d) (λ _. keep (terminate-IsSound proc _ h))
            (λ _.
              Plain-then
                (dispose-Plain d cause t s _
                  (record { sound = h; parked = e; waits = w; asks = refl; same = refl }))
                (λ b r q. run-Keeps lib proc fuel _ (resume_halted-IsSound proc b r q))))
