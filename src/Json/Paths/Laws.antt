-- ===== src/Json/Paths/Laws.antt =====
-- Reading back what `assign` wrote, and what it leaves alone.
use rbpmn.Common.{
  String, ◌≡◌, ◌≢◌, refl, some, List, [], ◌∷◌, arith, same_text, same_text_iff, if◌then◌else◌,
  Bool-cases, inl, inr,
}
use rbpmn.Json.Values.{Value, Members, as_members, get, insert, or_null, get-insert}
use rbpmn.Json.Paths.{resolve, assign}

get-insert_self : (k : String) (v : Value) (m : Members) → get k (insert k v m) ≡ some v
get-insert_self k v m = ground (arith, get-insert k k v m, same_text_iff k k)

get-insert_ne : (k q : String) (v : Value) (m : Members) → k ≢ q → get q (insert k v m) ≡ get q m
get-insert_ne k q v m h = ground (arith, get-insert k q v m, same_text_iff k q)

-- What a decision's answer was written to is read back there: `resolve` at the bound path of a
-- document that `assign` wrote gives the value written, whatever stood in the way.
pub resolve-assign :
    (document : Value) (path : List String) (value : Value)
    → resolve (assign document path value) path ≡ value
unfolding resolve assign
resolve-assign document [] value = refl
resolve-assign document (s ∷ []) value = rw (get-insert_self s value (as_members document))
resolve-assign document (s ∷ t ∷ path) value =
    rw
      (get-insert_self s (assign (or_null (get s (as_members document))) (t ∷ path) value)
        (as_members document))
      (resolve-assign (or_null (get s (as_members document))) (t ∷ path) value)

-- Two names part after the segments that they share.
abbrev pub Part : List String → List String → Type 0
Part (s ∷ p) (t ∷ q) = if same_text s t then Part p q else Unit
Part _ _ = ⊥

-- A write at one name leaves what every name that parts from it reads, also where it had to make an
-- object of a value in its way.
pub resolve-assign-Part :
    (document : Value) (p q : List String) (value : Value)
    → Part p q
    → resolve (assign document p value) q ≡ resolve document q
unfolding resolve assign
resolve-assign-Part document [] q value h = elim h [ ]
resolve-assign-Part document (s ∷ []) [] value h = elim h [ ]
resolve-assign-Part document (s ∷ s' ∷ p) [] value h = elim h [ ]
resolve-assign-Part document (s ∷ []) (t ∷ q) value h = elim (Bool-cases (same_text s t)) [
  | inl same ↦ absurd (rw same at h)
  | inr other ↦
      rw (get-insert_ne s t value (as_members document) (λ e. cc (other, (same_text_iff s t).1 e)))
]
resolve-assign-Part document (s ∷ s' ∷ p) (t ∷ q) value h = elim (Bool-cases (same_text s t)) [
  | inl same ↦
      below ((same_text_iff s t).0 same) (rw same at h)
        (resolve-assign-Part (or_null (get s (as_members document))) (s' ∷ p) q value)
  | inr other ↦ rw (
      get-insert_ne s t (assign (or_null (get s (as_members document))) (s' ∷ p) value)
        (as_members document) (λ e. cc (other, (same_text_iff s t).1 e)))
]
  where
    under : Value
    under = assign (or_null (get s (as_members document))) (s' ∷ p) value

    below :
        s ≡ t
        → Part (s' ∷ p) q
        → (Part (s' ∷ p) q → resolve under q ≡ resolve (or_null (get s (as_members document))) q)
        → resolve (or_null (get t (insert s under (as_members document)))) q
          ≡ resolve (or_null (get t (as_members document))) q
    below e part ih = rw (← e) (rw (get-insert_self s under (as_members document)) (ih part))
