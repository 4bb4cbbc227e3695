-- ===== src/Step/Withdraw/Entries.antt =====
-- The entries of the open scopes, by the scope that they lie in (state.rs).
use mathlib.Core.Path.{subst}
use rbpmn.Common.{
  ℕ, suc, ◌+◌, ◌≤◌, ◌<◌, ◌≡◌, ◌↔◌, ◌⊎◌, refl, sym, ap, inl, inr, true, false, not, List, [], ◌∷◌,
  ◌++◌, length, arith, filter, ◌==◌, ==_iff, Bool-cases, if◌then◌else◌, Among, first, later,
  Among-cons, nowhere,
}
use rbpmn.Common.Maps.{Map, keys}
use rbpmn.State.{ScopeId, ScopeState}

-- How often an id is in a list.
abbrev pub count : ℕ → List ℕ → ℕ
count k [] = 0
count k (x ∷ xs) = (if x == k then 1 else 0) + count k xs

-- The open scopes: each has one entry, and lies in an older one.
pub record AreScopes (m : Map ScopeState) : Type 0 where
  pub one_entry : (k : ScopeId) → count k (keys m) ≤ 1
  pub older : (k : ScopeId) (e : ScopeState) → Among (k, e) m → e.parent < k

abbrev pub Entries : Type 0
Entries = Map ScopeState

abbrev pub under : ScopeId → Entries → Entries
under p = filter (λ x. x.1.parent == p)

abbrev pub beside : ScopeId → Entries → Entries
beside p = filter (λ x. not (x.1.parent == p))

pub under-beside :
    (p q : ScopeId) (m : Entries) → (p == q) ≡ false → under q (beside p m) ≡ under q m
under-beside p q [] h = refl
under-beside p q ((k, e) ∷ m) h = elim (Bool-cases (e.parent == p)) [
  | inl a ↦
      let other : (e.parent == q) ≡ false =
        subst (λ x. (x == q) ≡ false) (sym ((==_iff e.parent p).0 a)) h in
      rw (a, other) (under-beside p q m h)
  | inr a ↦ elim (Bool-cases (e.parent == q)) [
    | inl b ↦ rw (a, b) (ap (λ r. (k, e) ∷ r) (under-beside p q m h))
    | inr b ↦ rw (a, b) (under-beside p q m h)
  ]
]

pub length-keys : (m : Entries) → length (keys m) ≡ length m
length-keys [] = refl
length-keys (x ∷ m) = ap suc (length-keys m)

pub length-parts : (p : ScopeId) (m : Entries) → length (under p m) + length (beside p m) ≡ length m
length-parts p [] = refl
length-parts p (x ∷ m) = ground (arith, length-parts p m)

pub count-append : (k : ℕ) (xs ys : List ℕ) → count k (xs ++ ys) ≡ count k xs + count k ys
count-append k [] ys = omega arith
count-append k (x ∷ xs) ys = ground (arith, count-append k xs ys)

pub count-parts :
    (k p : ℕ) (m : Entries)
    → count k (keys (under p m)) + count k (keys (beside p m)) ≡ count k (keys m)
count-parts k p [] = refl
count-parts k p (x ∷ m) = ground (arith, count-parts k p m)

-- All entries but that of `top`.
abbrev pub others : ScopeId → Entries → Entries
others top = filter (λ x. not (x.0 == top))

pub others-le : (top : ScopeId) (m : Entries) → length (others top m) ≤ length m
others-le top [] = omega arith
others-le top (x ∷ m) = ground (arith, others-le top m)

pub count-others :
    (k top : ℕ) (m : Entries)
    → count k (keys (others top m)) ≡ (if top == k then 0 else count k (keys m))
count-others k top [] = ground arith
count-others k top (x ∷ m) = ground (arith, count-others k top m)

pub under-others :
    (top p : ScopeId) (m : Entries)
    → ((k : ScopeId) (e : ScopeState) → Among (k, e) m → e.parent < k)
    → top ≤ p
    → under p (others top m) ≡ under p m
under-others top p [] o l = refl
under-others top p ((k, e) ∷ m) o l =
    let rest = under-others top p m (λ j d n. o j d (later n)) l in
    elim (Bool-cases (k == top)) [
      | inr a ↦ elim (Bool-cases (e.parent == p)) [
        | inl b ↦ rw (a, b) (ap (λ r. (k, e) ∷ r) rest)
        | inr b ↦ rw (a, b) rest
      ]
      | inl a ↦
          let apart : (e.parent == p) ≡ false = ground (arith, o k e first, l, a) in
          rw (a, apart) rest
    ]

pub Among-after : {A : Type 0} {x : A} (xs : List A) {ys : List A} → Among x ys → Among x (xs ++ ys)
Among-after [] h = h
Among-after (y ∷ xs) h = later (Among-after xs h)

pub Among-split :
    {A : Type 0} {x : A} (xs ys : List A) → Among x (xs ++ ys) → Among x xs ⊎ Among x ys
Among-split [] ys h = inr h
Among-split (y ∷ xs) ys h = elim (Among-cons h) [
  | inl e ↦ inl (subst (λ z. Among z (y ∷ xs)) (sym e) first)
  | inr n ↦ elim (Among-split xs ys n) [ inl m ↦ inl (later m) | inr m ↦ inr m ]
]

-- The entries under a scope, by key.
pub Among-under :
    (p k : ScopeId) (m : Entries)
    → Among k (keys (under p m)) ↔ ((e : ScopeState) × (Among (k, e) m × (e.parent ≡ p)))
Among-under p k m = (found m, λ (e, (n, q)). kept m e n q)
  where
    found :
        (m : Entries)
        → Among k (keys (under p m))
        → (e : ScopeState) × (Among (k, e) m × (e.parent ≡ p))
    found [] h = nowhere h
    found ((j, d) ∷ m) h = elim (Bool-cases (d.parent == p)) [
      | inr a ↦ let (e, (n, q)) = found m (rw a at h) in (e, (later n, q))
      | inl a ↦ elim (Among-cons (rw a at h)) [
        | inl q ↦
            (d, (subst (λ x. Among (x, d) ((j, d) ∷ m)) (sym q) first, (==_iff d.parent p).0 a))
        | inr r ↦ let (e, (n, q)) = found m r in (e, (later n, q))
      ]
    ]

    kept :
        (m : Entries) (e : ScopeState) → Among (k, e) m → e.parent ≡ p → Among k (keys (under p m))
    kept [] e n q = nowhere n
    kept ((j, d) ∷ m) e n q = elim (Among-cons n) [
      | inl r ↦
          subst (λ (x : ScopeId × ScopeState). Among k (keys (under p (x ∷ m)))) r
            (rw ((==_iff e.parent p).1 q) first)
      | inr r ↦ elim (Bool-cases (d.parent == p)) [
        | inl a ↦ rw a (later (kept m e r q))
        | inr a ↦ rw a (kept m e r q)
      ]
    ]

pub Among-count : (q : ℕ) (xs : List ℕ) → Among q xs → 1 ≤ count q xs
Among-count q [] h = nowhere h
Among-count q (x ∷ xs) h = elim (Among-cons h) [
  | inl e ↦ let here : (x == q) ≡ true = (==_iff x q).1 (sym e) in ground (arith, here)
  | inr n ↦ let more = Among-count q xs n in ground (arith, more)
]
