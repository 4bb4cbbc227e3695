-- ===== src/Step/Claims/Closing.antt =====
-- What names the token of an item that has just been closed.
use rbpmn.Common.{ℕ, ◌≡◌, ◌≢◌, refl, sym, ap, ◌∙◌, true, false, some}
use rbpmn.Common.Maps.{get, insert}
use rbpmn.State.{InstanceState, WorkItemId, Token, WaitKind, work_item, WorkItemState}
use rbpmn.Step.Outcome.{new}
use rbpmn.Step.Claims.{Claim, item_of, host_of, holdings, Names, names_item, Fits, IsTended}
use rbpmn.Step.Claims.Update.{shrink}
use rbpmn.Step.Claims.Less.{Names-closed}
use rbpmn.Step.Claims.Moves.{host_not_item}
use rbpmn.Step.Claims.Release.{Fits-of, item_parked}

pub one_item : (p q : ℕ) (w : WaitKind) → Fits (item_of p) w → Fits (item_of q) w → p ≡ q
one_item p q (work_item k) h n = sym h ∙ n
one_item p q _ h n = absurd h

-- Closing an item.
abbrev pub closed_state : WorkItemId → WorkItemState → InstanceState → InstanceState
closed_state id item s = record s {
  work_items = insert id (record item { is_open = false }) s.work_items;
}

pub closed_sound :
    (id : WorkItemId) (item : WorkItemState) (s : InstanceState)
    → IsTended s
    → IsTended (closed_state id item s)
closed_sound id item s h =
    shrink h (λ j c n. (Names-closed id (record item { is_open = false }) refl n).0)

-- The token of an open item, once that is closed, is named by arms at most.
pub closed-Names :
    (id : WorkItemId) (item : WorkItemState) (s : InstanceState) (c : Claim)
    → IsTended s
    → get id s.work_items ≡ some item
    → item.is_open ≡ true
    → Names (holdings (closed_state id item s)) item.token c
    → Names (holdings (closed_state id item s)) item.token c
      × ((t : Token) → get item.token s.tokens ≡ some t → Fits c t.wait × Fits (item_of id) t.wait)
      × c ≢ item_of id
closed-Names id item s c h g o n =
    let (m, other) = Names-closed id (record item { is_open = false }) refl n in
    (
      n,
      (λ t e. (
        Fits-of (new s) c h e m,
        Fits-of (new s) (item_of id) h e (names_item id item g o refl),
      )),
      other,
    )

pub closed_no_item :
    (id : WorkItemId) (item : WorkItemState) (s : InstanceState)
    → IsTended s
    → get id s.work_items ≡ some item
    → item.is_open ≡ true
    → (q : ℕ) → ¬ Names (holdings (closed_state id item s)) item.token (item_of q)
closed_no_item id item s h g o q n =
    let (_, fit, other) = closed-Names id item s (item_of q) h g o n in
    let (m, _) = Names-closed id (record item { is_open = false }) refl n in
    let (t, e) = item_parked (new s) (get item.token s.tokens) h refl m in
    let (p, r) = fit t e in other (ap item_of (one_item q id t.wait p r))

pub closed_no_host :
    (id : WorkItemId) (item : WorkItemState) (s : InstanceState) (t : Token)
    → IsTended s
    → get id s.work_items ≡ some item
    → item.is_open ≡ true
    → get item.token s.tokens ≡ some t
    → (q : ℕ) → ¬ Names (holdings (closed_state id item s)) item.token (host_of q)
closed_no_host id item s t h g o e q n =
    let (_, fit, _) = closed-Names id item s (host_of q) h g o n in
    let (p, r) = fit t e in host_not_item q id t.wait p r
