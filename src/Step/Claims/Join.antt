-- ===== src/Step/Claims/Join.antt =====
-- The claims on tokens under enter_join (step.rs), and what waits at a join.
use mathlib.Core.Option.{some-injective}
use mathlib.Core.Path.{subst}
use rbpmn.Common.{
  ◌≡◌, refl, sym, ap, ◌∙◌, Bool, true, false, ◌&&◌, Option, none, some, is_some, find, List, [],
  ◌∷◌, Among, first, later, nowhere, Among-cons, ◌==◌, arith, if◌then◌else◌, inl, inr,
}
use rbpmn.Common.Maps.{Map, get, remove}
use rbpmn.Common.Maps.Order.{IsOrdered, Among-get}
use rbpmn.Process.{NodeIx, FlowIx, ExecutableProcess}
use rbpmn.State.{TokenId, ScopeId, Token, WaitKind, join}
use rbpmn.Step.Outcome.{Advancer}
use rbpmn.Step.Advance.{park, is_join_via, arrived, all_arrived, unpark_all, join_full, enter_join}
use rbpmn.Step.Claims.{
  Claim, timer_of, subscription_of, item_of, host_of, Holds, Fits, IsHost, IsSound, HasHand,
}
use rbpmn.Step.Claims.Update.{put, erase}
use rbpmn.Step.Claims.Lookup.{same_or_not, get-remove_same, get-remove_other}
use rbpmn.Step.Claims.Queue.{minted_one, fresh-Hand}
use rbpmn.Step.Claims.Less.{on_option}
use rbpmn.Step.Claims.Moves.{Keeps, keep, on_test, leave_single-Keeps}

none_at_join : (c : Claim) (f : FlowIx) → ¬ Fits c (join f)
none_at_join (timer_of _) f h = h
none_at_join (subscription_of _) f h = h
none_at_join (item_of _) f h = h
none_at_join (host_of _) f h = h

pub park-IsSound :
    (token : TokenId) (ix : NodeIx) (w : WaitKind) (a : Advancer)
    → IsSound a
    → HasHand token a
    → IsSound (park token ix w a)
park-IsSound token ix w a s k =
    put token (record { node = ix; scope = a.scope; wait = w }) s (λ j y. absurd y)
      (λ c n. absurd (k.free.unnamed c n)) k.unmoved k.free.below

-- The token waits at a join, or is gone.
data AtJoin (tokens : Map Token) (t : TokenId) : Type 0 where
  gone : get t tokens ≡ none → AtJoin tokens t
  waits : (u : Token) (f : FlowIx) → get t tokens ≡ some u → u.wait ≡ join f → AtJoin tokens t

remove-AtJoin : (k t : TokenId) (tokens : Map Token) → AtJoin tokens t → AtJoin (remove k tokens) t
remove-AtJoin k t tokens h = elim (same_or_not k t) [
  | inl e ↦ gone (subst (λ i. get i (remove k tokens) ≡ none) e (get-remove_same k tokens))
  | inr e ↦ other h (get-remove_other k t tokens e)
]
  where
    other : AtJoin tokens t → get t (remove k tokens) ≡ get t tokens → AtJoin (remove k tokens) t
    other (gone g) q = gone (q ∙ g)
    other (waits u f g w) q = waits u f (q ∙ g) w

IsHost-AtJoin :
    (tokens : Map Token) (t : TokenId) (c : Claim)
    → AtJoin tokens t
    → Holds c (get t tokens)
    → IsHost c
IsHost-AtJoin tokens t c (gone g) h = subst (Holds c) g h
IsHost-AtJoin tokens t c (waits u f g w) h =
    absurd (none_at_join c f (subst (Fits c) w (subst (Holds c) g h)))

AllAtJoin : Map Token → List TokenId → Type 0
AllAtJoin tokens ts = (t : TokenId) → Among t ts → AtJoin tokens t

unpark_all-IsSound :
    (ts : List TokenId) (a : Advancer)
    → IsSound a
    → AllAtJoin a.state.tokens ts
    → IsSound (unpark_all ts a)
unfolding unpark_all AllAtJoin
unpark_all-IsSound [] a s h = s
unpark_all-IsSound (t ∷ ts) a s h =
    unpark_all-IsSound ts _
      (erase t s (λ c n. IsHost-AtJoin a.state.tokens t c (h t first) (s.held t c n (λ y. y))))
      (λ j i. remove-AtJoin t j a.state.tokens (h j (later i)))

find-Among :
    {A : Type 0} (p : A → Bool) (xs : List A) (e : A)
    → find p xs ≡ some e
    → Among e xs × (p e ≡ true)
find-Among p [] e h = cc
find-Among {A} p (x ∷ xs) e h = found (p x) refl (find-Among p xs e) h
  where
    found :
        (b : Bool)
        → p x ≡ b
        → (find p xs ≡ some e → Among e xs × (p e ≡ true))
        → (if b then some x else find p xs) ≡ some e
        → Among e (x ∷ xs) × (p e ≡ true)
    found true q rest y =
        let same = some-injective x e y in
        (subst (λ z. Among e (z ∷ xs)) (sym same) first, sym (ap p same) ∙ q)
    found false q rest y = (later (rest y).0, (rest y).1)

join_of : (f : FlowIx) (w : WaitKind) → is_join_via f w ≡ true → (g : FlowIx) × (w ≡ join g)
join_of f (join g) h = (g, refl)
join_of f _ h = cc

both : (a b c : Bool) → (a && b && c) ≡ true → c ≡ true
both a b c h = ground arith

AtJoinOr : Map Token → Option TokenId → Type 0
AtJoinOr tokens none = Unit
AtJoinOr tokens (some t) = AtJoin tokens t

AllAtJoinOr : Map Token → Option (List TokenId) → Type 0
AllAtJoinOr tokens none = Unit
AllAtJoinOr tokens (some ts) = AllAtJoin tokens ts

arrived-AtJoin :
    (ix : NodeIx) (s : ScopeId) (tokens : Map Token) (f : FlowIx)
    → IsOrdered tokens
    → AtJoinOr tokens (arrived ix s tokens f)
unfolding arrived AtJoinOr
arrived-AtJoin ix s tokens f o =
    on_option (AtJoinOr tokens)
      (find (λ e. e.1.node == ix && e.1.scope == s && is_join_via f e.1.wait) tokens) (λ _. tt)
      (λ e h.
        let (m, p) =
          find-Among (λ e. e.1.node == ix && e.1.scope == s && is_join_via f e.1.wait) tokens e h in
        let (g, w) = join_of f e.1.wait (both (e.1.node == ix) (e.1.scope == s) _ p) in
        waits e.1 g (Among-get e.0 e.1 tokens o m) w)

all_arrived-AtJoin :
    (ix : NodeIx) (s : ScopeId) (tokens : Map Token) (fs : List FlowIx)
    → IsOrdered tokens
    → AllAtJoinOr tokens (all_arrived ix s tokens fs)
unfolding all_arrived AtJoinOr AllAtJoinOr AllAtJoin
all_arrived-AtJoin ix s tokens [] o = λ t i. nowhere i
all_arrived-AtJoin ix s tokens (f ∷ fs) o =
    on_option (AllAtJoinOr tokens) (arrived ix s tokens f) (λ _. tt)
      (λ t e.
        on_option (AllAtJoinOr tokens) (all_arrived ix s tokens fs) (λ _. tt)
          (λ ts q. λ j i. elim (Among-cons i) [
            | inl y ↦
                subst (AtJoin tokens) (sym y)
                  (subst (AtJoinOr tokens) e (arrived-AtJoin ix s tokens f o))
            | inr n ↦ subst (AllAtJoinOr tokens) q (all_arrived-AtJoin ix s tokens fs o) j n
          ]))

module _ (proc : ExecutableProcess) where
  join_full-Keeps :
      (o : Option (List TokenId)) (ix : NodeIx) (a : Advancer)
      → IsSound a
      → AllAtJoinOr a.state.tokens o
      → Keeps (join_full proc o ix a)
  unfolding join_full AllAtJoinOr
  join_full-Keeps none ix a s h = keep s
  join_full-Keeps (some ts) ix a s h =
      let u = unpark_all-IsSound ts a s h in
      leave_single-Keeps proc _ ix _ (minted_one u) (fresh-Hand u)

  pub enter_join-Keeps :
      (token : TokenId) (ix : NodeIx) (via : Option FlowIx) (a : Advancer)
      → IsSound a
      → HasHand token a
      → Keeps (enter_join proc token ix via a)
  unfolding enter_join
  enter_join-Keeps token ix none a s k = keep s
  enter_join-Keeps token ix (some f) a s k =
      on_test (is_some (arrived ix a.scope a.state.tokens f)) (λ _. keep s)
        (λ _.
          let parked = park-IsSound token ix (join f) a s k in
          join_full-Keeps _ ix _ parked
            (all_arrived-AtJoin ix _ _ (proc.node ix).incoming parked.ordered))
