-- ===== src/Step/Claims/Less.antt =====
-- What only takes away: fewer names, fewer parked tokens, fewer moves.
use mathlib.Core.Option.{some-injective}
use mathlib.Core.Path.{subst}
use rbpmn.Common.{◌≡◌, ◌≢◌, refl, sym, ◌∙◌, inl, inr, false, Option, none, some, Among}
use rbpmn.Common.Maps.{get, insert}
use rbpmn.State.{TokenId, WorkItemId, Token, WorkItemState}
use rbpmn.Step.Outcome.{Advancer, Move}
use rbpmn.Step.Claims.{
  Claim, timer_of, subscription_of, item_of, Holdings, holdings, Names, names_timer,
  names_subscription, names_item, names_host, SoundBut,
}
use rbpmn.Step.Claims.Lookup.{same_or_not, get-insert_same, get-insert_other}

-- `on_option P o n s`: what holds of both cases of an option holds of the choice between them.
pub on_option :
    {A B : Type 0} (P : B → Type 0) (o : Option A) {x : B} {f : A → B}
    → (o ≡ none → P x)
    → ((v : A) → o ≡ some v → P (f v))
    → P (elim o [ none ↦ x | some v ↦ f v ])
on_option P none n s = n refl
on_option P (some v) n s = s v refl

pub record Reduces (a b : Advancer) : Type 0 where
  pub names :
      (k : TokenId) (c : Claim) → Names (holdings b.state) k c → Names (holdings a.state) k c
  pub parked :
      (k : TokenId) (t : Token) → get k b.state.tokens ≡ some t → get k a.state.tokens ≡ some t
  pub moves : (m : Move) → Among m b.queue → Among m a.queue
  pub same_next : b.state.next_token ≡ a.state.next_token
  pub same_asked : b.reask ≡ a.reask
  pub sound : (x : Option TokenId) → SoundBut x a → SoundBut x b

pub Reduces-trans : {a b c : Advancer} → Reduces a b → Reduces b c → Reduces a c
Reduces-trans p q = record {
  names = λ k c n. p.names k c (q.names k c n);
  parked = λ k t e. p.parked k t (q.parked k t e);
  moves = λ m i. p.moves m (q.moves m i);
  same_next = q.same_next ∙ p.same_next;
  same_asked = q.same_asked ∙ p.same_asked;
  sound = λ x s. q.sound x (p.sound x s);
}

pub Reduces-refl : (a : Advancer) → Reduces a a
Reduces-refl a = record {
  names = λ k c n. n;
  parked = λ k t e. e;
  moves = λ m i. i;
  same_next = refl;
  same_asked = refl;
  sound = λ x s. s;
}

-- An item that is closed names no token any more, and the others name what they did.
pub Names-closed :
    {h : Holdings} {k : TokenId} {c : Claim} (id : WorkItemId) (item : WorkItemState)
    → item.is_open ≡ false
    → Names (record h { work_items = insert id item h.work_items }) k c
    → Names h k c × c ≢ item_of id
Names-closed id item e (names_timer i t m q) = (names_timer i t m q, λ y. cc)
Names-closed id item e (names_subscription i t m q) = (names_subscription i t m q, λ y. cc)
Names-closed id item e (names_host i t m q) = (names_host i t m q, λ y. cc)
Names-closed {h} id item e (names_item i t g o q) = elim (same_or_not id i) [
  | inl y ↦ cc (
    o,
    e,
    some-injective _ _ (
        sym (get-insert_same id item h.work_items)
        ∙ subst (λ z. get z (insert id item h.work_items) ≡ some t) (sym y) g),
  )
  | inr y ↦ (
    names_item i t (sym (get-insert_other id i item h.work_items y) ∙ g) o q,
    λ z. let same : id ≡ i = cc z in y same,
  )
]

-- The claims that withdrawing arms leaves.
abbrev pub IsKept : Claim → Type 0
IsKept (timer_of _) = ⊥
IsKept (subscription_of _) = ⊥
IsKept _ = Unit
