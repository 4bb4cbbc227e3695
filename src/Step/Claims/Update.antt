-- ===== src/Step/Claims/Update.antt =====
-- Single updates of a state, and what each of them asks for where claims are to stay held.
use mathlib.Core.Path.{subst}
use rbpmn.Common.{
  ℕ, ◌≡◌, ◌≢◌, sym, ◌∙◌, ◌<◌, ◌⊎◌, inl, inr, not, Option, none, some, List, Among, ◌==◌,
}
use rbpmn.Common.Maps.{Map, get, insert, remove}
use rbpmn.Common.Maps.Order.{insert-IsOrdered, filter-IsOrdered}
use rbpmn.State.{TokenId, Token}
use rbpmn.Step.Outcome.{Move}
use rbpmn.Step.Claims.{Claim, Holdings, Names, Fits, Holds, IsHost, Unmoved, IsExempt, Free, Sound}
use rbpmn.Step.Claims.Lookup.{
  same_or_not, get-insert_same, get-insert_other, get-remove_same, get-remove_other, get-remove_sub,
  parked_apart,
}

Free-removed :
    {h : Holdings} {tokens : Map Token} {next : ℕ} (k j : TokenId)
    → Free h tokens next j
    → Free h (remove k tokens) next j
Free-removed {h} {tokens} k j f = record {
  unparked = elim (same_or_not k j) [
    | inl e ↦ subst (λ i. get i (remove k tokens) ≡ none) e (get-remove_same k tokens)
    | inr e ↦ get-remove_other k j tokens e ∙ f.unparked
  ];
  unnamed = f.unnamed;
  below = f.below;
}

module _ {h : Holdings} {tokens : Map Token} {next : ℕ} {queue : List Move}
    {reask : List TokenId} where
  -- A token with an entry does not move.
  pub Unmoved-of :
      {x : Option TokenId} {k : TokenId} {t : Token}
      → Sound x h tokens next queue reask
      → get k tokens ≡ some t
      → Unmoved queue k
  Unmoved-of s e m i q = parked_apart tokens e (s.loose m i).unparked (sym q)

  -- The entry of a token is written, and suits what names it.
  pub put :
      {x : Option TokenId} (k : TokenId) (t : Token)
      → Sound x h tokens next queue reask
      → ((j : TokenId) → IsExempt x j → j ≡ k)
      → ((c : Claim) → Names h k c → Fits c t.wait)
      → Unmoved queue k
      → k < next
      → Sound none h (insert k t tokens) next queue reask
  put k t s only fit still low = record {
    ordered = insert-IsOrdered k t tokens s.ordered;
    held = λ j c n _. elim (same_or_not k j) [
      | inl e ↦
          subst (λ i. Names h i c → Holds c (get i (insert k t tokens))) e
            (λ n'. subst (Holds c) (sym (get-insert_same k t tokens)) (fit c n')) n
      | inr e ↦
          subst (Holds c) (sym (get-insert_other k j t tokens e))
            (s.held j c n (λ y. e (sym (only j y))))
    ];
    known = s.known;
    minted = λ j u g. elim (same_or_not k j) [
      | inl e ↦ subst (λ i. i < next) e low
      | inr e ↦ s.minted j u (sym (get-insert_other k j t tokens e) ∙ g)
    ];
    loose = λ m i.
        let f = s.loose m i in
        record {
          unparked = get-insert_other k m.token t tokens (λ e. still m i (sym e)) ∙ f.unparked;
          unnamed = f.unnamed;
          below = f.below;
        };
    apart = s.apart;
    asked = s.asked;
  }

  -- The entry of a token is removed, and what names it is exempt.
  pub drop :
      (k : TokenId)
      → Sound none h tokens next queue reask
      → Sound (some k) h (remove k tokens) next queue reask
  drop k s = record {
    ordered = filter-IsOrdered (λ e. not (e.0 == k)) tokens s.ordered;
    held = λ j c n y. subst (Holds c) (sym (get-remove_other k j tokens y)) (s.held j c n (λ z. z));
    known = s.known;
    minted = λ j u g. s.minted j u (get-remove_sub k j u tokens g);
    loose = λ m i. Free-removed k m.token (s.loose m i);
    apart = s.apart;
    asked = s.asked;
  }

  -- The entry of a token is removed, and at most scopes name it.
  pub erase :
      {x : Option TokenId} (k : TokenId)
      → Sound x h tokens next queue reask
      → ((c : Claim) → Names h k c → IsHost c)
      → Sound x h (remove k tokens) next queue reask
  erase k s host = record {
    ordered = filter-IsOrdered (λ e. not (e.0 == k)) tokens s.ordered;
    held = λ j c n y. elim (same_or_not k j) [
      | inl e ↦
          subst (λ i. Names h i c → Holds c (get i (remove k tokens))) e
            (λ m. subst (Holds c) (sym (get-remove_same k tokens)) (host c m)) n
      | inr e ↦ subst (Holds c) (sym (get-remove_other k j tokens e)) (s.held j c n y)
    ];
    known = s.known;
    minted = λ j u g. s.minted j u (get-remove_sub k j u tokens g);
    loose = λ m i. Free-removed k m.token (s.loose m i);
    apart = s.apart;
    asked = s.asked;
  }

  pub exempt :
      (k : TokenId)
      → Sound none h tokens next queue reask
      → Sound (some k) h tokens next queue reask
  exempt k s = record {
    ordered = s.ordered;
    held = λ j c n y. s.held j c n (λ z. z);
    known = s.known;
    minted = s.minted;
    loose = s.loose;
    apart = s.apart;
    asked = s.asked;
  }

  -- The exemption ends where the claims on its token hold.
  pub close :
      (k : TokenId)
      → Sound (some k) h tokens next queue reask
      → ((c : Claim) → Names h k c → Holds c (get k tokens))
      → Sound none h tokens next queue reask
  close k s fit = record {
    ordered = s.ordered;
    held = λ j c n _. elim (same_or_not k j) [
      | inl e ↦ subst (λ i. Names h i c → Holds c (get i tokens)) e (fit c) n
      | inr e ↦ s.held j c n e
    ];
    known = s.known;
    minted = s.minted;
    loose = s.loose;
    apart = s.apart;
    asked = s.asked;
  }

  -- Entries go, and nothing new names a token.
  pub shrink :
      {x : Option TokenId} {h' : Holdings}
      → Sound x h tokens next queue reask
      → ((k : TokenId) (c : Claim) → Names h' k c → Names h k c)
      → Sound x h' tokens next queue reask
  shrink s sub = record {
    ordered = s.ordered;
    held = λ k c n. s.held k c (sub k c n);
    known = λ k c n. s.known k c (sub k c n);
    minted = s.minted;
    loose = λ m i.
        let f = s.loose m i in
        record {
          unparked = f.unparked;
          unnamed = λ c n. f.unnamed c (sub m.token c n);
          below = f.below;
        };
    apart = s.apart;
    asked = λ k i.
        let p = s.asked k i in
        record { unnamed = λ c n. p.unnamed c (sub k c n); unmoved = p.unmoved; below = p.below };
  }

  -- One entry more, that names a token which neither moves nor will be asked again.
  pub grow :
      {x : Option TokenId} {h' : Holdings} (k : TokenId) (new : Claim)
      → Sound x h tokens next queue reask
      → ((j : TokenId) (c : Claim) → Names h' j c → (j ≡ k) × (c ≡ new) ⊎ Names h j c)
      → (¬ IsExempt x k → Holds new (get k tokens))
      → Unmoved queue k
      → ((j : TokenId) → Among j reask → j ≢ k)
      → k < next
      → Sound x h' tokens next queue reask
  grow {x} k new s one fit still apart low = record {
    ordered = s.ordered;
    held = λ j c n y. elim (one j c n) [
      | inl (e, q) ↦
          subst (λ i. ¬ IsExempt x i → Holds c (get i tokens)) (sym e)
            (λ z. subst (λ d. Holds d (get k tokens)) (sym q) (fit z)) y
      | inr o ↦ s.held j c o y
    ];
    known = λ j c n. elim (one j c n) [
      | inl (e, q) ↦ subst (λ i. i < next) (sym e) low
      | inr o ↦ s.known j c o
    ];
    minted = s.minted;
    loose = λ m i.
        let f = s.loose m i in
        record {
          unparked = f.unparked;
          unnamed =
              λ c n. elim (one m.token c n) [ inl (e, q) ↦ still m i e | inr o ↦ f.unnamed c o ];
          below = f.below;
        };
    apart = s.apart;
    asked = λ j i.
        let p = s.asked j i in
        record {
          unnamed = λ c n. elim (one j c n) [ inl (e, q) ↦ apart j i e | inr o ↦ p.unnamed c o ];
          unmoved = p.unmoved;
          below = p.below;
        };
  }
