-- ===== src/Step/Claims/Queue.antt =====
-- The queue's own updates: a move that is pushed or popped, moves that are dropped, a token that is
-- minted or taken from its place.
use mathlib.Core.Path.{subst}
use rbpmn.Common.{
  ℕ, ◌≡◌, ◌≢◌, refl, sym, ap, ◌∙◌, ◌<◌, ◌+◌, inl, inr, Bool, true, false, Option, none, some, List,
  [], ◌∷◌, ◌++◌, Among, first, later, nowhere, arith, filter, Among-filter, Among-append_last,
  if◌then◌else◌,
}
use rbpmn.Common.Maps.{Map, get, remove}
use rbpmn.State.{TokenId, Token}
use rbpmn.Step.Outcome.{Move}
use rbpmn.Step.Claims.{Holdings, Unnamed, Unmoved, Apart, Free, Pending, Sound, Hand}
use rbpmn.Step.Claims.Update.{Unmoved-of, drop, close}
use rbpmn.Step.Claims.Lookup.{get-remove_same}

Apart-last :
    (queue : List Move) (m : Move) → Apart queue → Unmoved queue m.token → Apart (queue ++ m ∷ [])
Apart-last [] m p q = ((λ n i. nowhere i), tt)
Apart-last (n ∷ queue) m p q = (
  λ o i. elim (Among-append_last queue m i) [
    | inl j ↦ p.0 o j
    | inr e ↦ λ y. q n first (sym y ∙ ap (λ z. z.token) e)
  ],
  Apart-last queue m p.1 (λ o i. q o (later i)),
)

Apart-filter : (p : Move → Bool) (queue : List Move) → Apart queue → Apart (filter p queue)
Apart-filter p [] a = tt
Apart-filter p (m ∷ queue) a = kept (p m) (Apart-filter p queue a.1)
  where
    kept :
        (b : Bool)
        → Apart (filter p queue)
        → Apart (if b then m ∷ filter p queue else filter p queue)
    kept true r = ((λ n i. a.0 n (Among-filter p queue i).0), r)
    kept false r = r

module _ {h : Holdings} {tokens : Map Token} {next : ℕ} {queue : List Move}
    {reask : List TokenId} where
  -- Moves are dropped.
  pub dequeue :
      {x : Option TokenId} (queue' : List Move)
      → Sound x h tokens next queue reask
      → ((m : Move) → Among m queue' → Among m queue)
      → Apart queue'
      → Sound x h tokens next queue' reask
  dequeue queue' s sub apart = record {
    ordered = s.ordered;
    held = s.held;
    known = s.known;
    minted = s.minted;
    loose = λ m i. s.loose m (sub m i);
    apart = apart;
    asked = λ k i.
        let p = s.asked k i in
        record { unnamed = p.unnamed; unmoved = λ m j. p.unmoved m (sub m j); below = p.below };
  }

  pub dequeue_all :
      {x : Option TokenId} → Sound x h tokens next queue reask → Sound x h tokens next [] reask
  dequeue_all s = dequeue [] s (λ m i. nowhere i) tt

  pub dequeue_some :
      {x : Option TokenId} (p : Move → Bool)
      → Sound x h tokens next queue reask
      → Sound x h tokens next (filter p queue) reask
  dequeue_some p s =
      dequeue (filter p queue) s (λ m i. (Among-filter p queue i).0) (Apart-filter p queue s.apart)

  pub forget_asked :
      {x : Option TokenId} → Sound x h tokens next queue reask → Sound x h tokens next queue []
  forget_asked s = record {
    ordered = s.ordered;
    held = s.held;
    known = s.known;
    minted = s.minted;
    loose = s.loose;
    apart = s.apart;
    asked = λ k i. nowhere i;
  }

  -- One more decision to ask again.
  pub ask :
      (k : TokenId)
      → Sound none h tokens next queue reask
      → Pending h next queue k
      → Sound none h tokens next queue (reask ++ k ∷ [])
  ask k s p = record {
    ordered = s.ordered;
    held = s.held;
    known = s.known;
    minted = s.minted;
    loose = s.loose;
    apart = s.apart;
    asked = λ j i. elim (Among-append_last reask k i) [
      | inl o ↦ s.asked j o
      | inr e ↦ subst (Pending h next queue) (sym e) p
    ];
  }

  -- The token in hand is put on its way.
  pub enqueue :
      (m : Move)
      → Sound none h tokens next queue reask
      → Hand h tokens next queue reask m.token
      → Sound none h tokens next (queue ++ m ∷ []) reask
  enqueue m s k = record {
    ordered = s.ordered;
    held = s.held;
    known = s.known;
    minted = s.minted;
    loose = λ n i. elim (Among-append_last queue m i) [
      | inl j ↦ s.loose n j
      | inr e ↦ subst (λ z. Free h tokens next z.token) (sym e) k.free
    ];
    apart = Apart-last queue m s.apart k.unmoved;
    asked = λ j i.
        let p = s.asked j i in
        record {
          unnamed = p.unnamed;
          unmoved = λ n o. elim (Among-append_last queue m o) [
            | inl r ↦ p.unmoved n r
            | inr e ↦ λ y. k.unasked j i (sym y ∙ ap (λ z. z.token) e)
          ];
          below = p.below;
        };
  }

  -- An id is given out.
  pub minted_one : Sound none h tokens next queue reask → Sound none h tokens (next + 1) queue reask
  minted_one s = record {
    ordered = s.ordered;
    held = s.held;
    known = λ k c n. let l = s.known k c n in omega arith;
    minted = λ k t g. let l = s.minted k t g in omega arith;
    loose = λ m i.
        let f = s.loose m i in
        let l = f.below in
        record { unparked = f.unparked; unnamed = f.unnamed; below = omega arith };
    apart = s.apart;
    asked = λ k i.
        let p = s.asked k i in
        let l = p.below in record { unnamed = p.unnamed; unmoved = p.unmoved; below = omega arith };
  }

  fresh_unparked :
      (o : Option Token)
      → get next tokens ≡ o
      → ¬ (next < next)
      → Sound none h tokens next queue reask
      → get next tokens ≡ none
  fresh_unparked none e n s = e
  fresh_unparked (some t) e n s = absurd (n (s.minted next t e))

  pub fresh-Hand : Sound none h tokens next queue reask → Hand h tokens (next + 1) queue reask next
  fresh-Hand s = record {
    free = record {
      unparked = fresh_unparked (get next tokens) refl (λ l. omega arith) s;
      unnamed = λ c n. let l = s.known next c n in omega arith;
      below = omega arith;
    };
    unmoved = λ m i e. let l = (s.loose m i).below in omega arith;
    unasked = λ j i e. let l = (s.asked j i).below in omega arith;
  }

  -- A parked token that nothing names is taken from its place.
  pub unpark-Hand :
      (k : TokenId) (t : Token)
      → Sound none h tokens next queue reask
      → get k tokens ≡ some t
      → Unnamed h k
      → ((j : TokenId) → Among j reask → j ≢ k)
      → Sound none h (remove k tokens) next queue reask
        × Hand h (remove k tokens) next queue reask k
  unpark-Hand k t s e free unasked = (
    close k (drop k s) (λ c n. absurd (free c n)),
    record {
      free = record { unparked = get-remove_same k tokens; unnamed = free; below = s.minted k t e };
      unmoved = Unmoved-of s e;
      unasked = unasked;
    },
  )

-- The next move is popped.
pub popped :
    {h : Holdings} {tokens : Map Token} {next : ℕ} {reask : List TokenId} (m : Move)
    (queue : List Move)
    → Sound none h tokens next (m ∷ queue) reask
    → Sound none h tokens next queue reask × Hand h tokens next queue reask m.token
popped m queue s = (
  dequeue queue s (λ n i. later i) s.apart.1,
  record {
    free = s.loose m first;
    unmoved = s.apart.0;
    unasked = λ j i e. (s.asked j i).unmoved m first (sym e);
  },
)
