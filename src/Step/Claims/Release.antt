-- ===== src/Step/Claims/Release.antt =====
-- Taking a token from its place, and what must be gone by then.
use mathlib.Core.Path.{subst}
use rbpmn.Common.{
  ℕ, ◌≡◌, ◌≢◌, ◌<◌, refl, sym, Bool, not, Option, none, some, Among, ◌==◌, ==_iff, Among-filter,
  filter,
}
use rbpmn.Common.Maps.{get, remove}
use rbpmn.State.{TokenId, Token, incident, halted, Halt, decision}
use rbpmn.Step.Outcome.{Advancer, in_scope}
use rbpmn.Step.Advance.{unpark}
use rbpmn.Step.Claims.{
  Claim, timer_of, subscription_of, item_of, host_of, Holdings, holdings, Names, names_timer,
  names_subscription, names_item, names_host, Fits, Holds, Unnamed, IsSound, HasHand,
}
use rbpmn.Step.Claims.Update.{drop, close, Unmoved-of}
use rbpmn.Step.Claims.Lookup.{get-remove_same}
use rbpmn.Step.Claims.Less.{Reduces}

-- The waits that nothing names a token for.
pub none_at_incident : (c : Claim) → ¬ Fits c incident
none_at_incident (timer_of _) h = h
none_at_incident (subscription_of _) h = h
none_at_incident (item_of _) h = h
none_at_incident (host_of _) h = h

pub none_at_decision : (c : Claim) → ¬ Fits c decision
none_at_decision (timer_of _) h = h
none_at_decision (subscription_of _) h = h
none_at_decision (item_of _) h = h
none_at_decision (host_of _) h = h

pub none_at_halted : (c : Claim) (x : Halt) → ¬ Fits c (halted x)
none_at_halted (timer_of _) x h = h
none_at_halted (subscription_of _) x h = h
none_at_halted (item_of _) x h = h
none_at_halted (host_of _) x h = h

abbrev pub Unasked : TokenId → Advancer → Type 0
Unasked k a = (j : TokenId) → Among j a.reask → j ≢ k

-- What a parked token's wait has to fit.
pub Fits-of :
    {k : TokenId} {t : Token} (a : Advancer) (c : Claim)
    → IsSound a
    → get k a.state.tokens ≡ some t
    → Names (holdings a.state) k c
    → Fits c t.wait
Fits-of {k} a c s e n = subst (Holds c) e (s.held k c n (λ y. y))

-- An item claims a token that is parked, so one that is not parked is claimed by none.
pub item_parked :
    {k id : ℕ} (a : Advancer) (o : Option Token)
    → IsSound a
    → get k a.state.tokens ≡ o
    → Names (holdings a.state) k (item_of id)
    → (t : Token) × (get k a.state.tokens ≡ some t)
item_parked {k} {id} a none s e n =
    absurd (subst (Holds (item_of id)) e (s.held k (item_of id) n (λ y. y)))
item_parked a (some t) s e n = (t, e)

-- A token taken from its place, and all that named it taken away.
pub release :
    (k : TokenId) (t : Token) (a b : Advancer)
    → IsSound a
    → get k a.state.tokens ≡ some t
    → Unasked k a
    → Reduces (unpark k a) b
    → Unnamed (holdings b.state) k
    → IsSound b × HasHand k b
release k t a b s e unasked r free = (
  close k (r.sound (some k) (drop k s)) (λ c n. absurd (free c n)),
  record {
    free = record {
      unparked = absent (get k b.state.tokens) refl;
      unnamed = free;
      below = subst (λ n. k < n) (sym r.same_next) (s.minted k t e);
    };
    unmoved = λ m i. Unmoved-of s e m (r.moves m i);
    unasked = λ j i. unasked j (subst (Among j) r.same_asked i);
  },
)
  where
    absent : (o : Option Token) → get k b.state.tokens ≡ o → get k b.state.tokens ≡ none
    absent none y = y
    absent (some u) y = cc (r.parked k u y, get-remove_same k a.state.tokens)

pub rescoped : {a b : Advancer} (s : ℕ) → Reduces a b → Reduces a (in_scope s b)
rescoped s r = record {
  names = r.names;
  parked = r.parked;
  moves = r.moves;
  same_next = r.same_next;
  same_asked = r.same_asked;
  sound = r.sound;
}

-- Entries that go by their ids.
pub unsubscribed :
    {h : Holdings} (p : ℕ → Bool) (k : TokenId) (c : Claim)
    → Names (record h { subscriptions = filter (λ e. p e.0) h.subscriptions }) k c
    → Names h k c
unsubscribed p k c (names_timer i t m q) = names_timer i t m q
unsubscribed {h} p k c (names_subscription i t m q) =
    names_subscription i t (Among-filter (λ e. p e.0) h.subscriptions m).0 q
unsubscribed p k c (names_item i t g o q) = names_item i t g o q
unsubscribed p k c (names_host i t m q) = names_host i t m q

pub untimed :
    {h : Holdings} (id : ℕ) (k : TokenId) (c : Claim)
    → Names (record h { timers = remove id h.timers }) k c
    → Names h k c × c ≢ timer_of id
untimed {h} id k c (names_timer i t m q) =
    let (n, y) = Among-filter (λ e. not (e.0 == id)) h.timers m in
    (names_timer i t n q, λ z. let same : i ≡ id = cc z in cc (y, (==_iff i id).1 same))
untimed id k c (names_subscription i t m q) = (names_subscription i t m q, λ z. cc)
untimed id k c (names_item i t g o q) = (names_item i t g o q, λ z. cc)
untimed id k c (names_host i t m q) = (names_host i t m q, λ z. cc)

-- A token that an interruption may take from its place.
pub record Interruptible (k : TokenId) (a : Advancer) : Type 0 where
  pub sound : IsSound a
  pub no_item : (id : ℕ) → ¬ Names (holdings a.state) k (item_of id)
  pub unasked : Unasked k a
