-- ===== src/Json/Merge/Laws.antt =====
-- What RFC 7386 says member by member, and that a patch applied twice is applied once.
use rbpmn.Common.{
  String, ◌≡◌, refl, ap, ◌∙◌, Bool, true, false, Option, none, some, arith, same_text,
  same_text_iff, if◌then◌else◌, Bool-cases, inl, inr,
}
use rbpmn.Json.Values.{
  Value, Members, null, bool, number, string, array, object, end, member, as_members, get, or_null,
  is_null, get-insert, get-remove, insert_same, remove_absent, IsProper, IsProperMap,
}
use rbpmn.Json.Merge.{merge_patch, merge_entries, write_member}

-- RFC 7386 for one member: what was there, and what the patch says of it.
abbrev pub merged : Option Value → Option Value → Option Value
merged before none = before
merged before (some v) = if is_null v then none else some (merge_patch (or_null before) v)

get-write_member :
    (k j : String) (b : Bool) (v : Value) (obj : Members)
    → get k (write_member b j v obj)
      ≡ (if same_text j k then (if b then none else some v) else get k obj)
unfolding write_member
get-write_member k j true v obj = get-remove j k obj
get-write_member k j false v obj = get-insert j k v obj

-- The loop over a patch's members comes to the rule of RFC 7386 at every member, for a patch that
-- holds each key once.
pub get-merge_entries :
    (k : String) (obj entries : Members)
    → IsProperMap entries
    → get k (merge_entries obj entries) ≡ merged (get k obj) (get k entries)
unfolding merge_patch get IsProper
get-merge_entries k obj end h = refl
get-merge_entries k obj (member j v rest) h = ground (
  arith,
  get-merge_entries k (write_member (is_null v) j (merge_patch (or_null (get j obj)) v) obj) rest
      h.2,
  get-write_member k j (is_null v) (merge_patch (or_null (get j obj)) v) obj,
  same_text_iff j k,
)

-- An object that a patch has nothing left to change in.
abbrev Settled : Option Value → Value → Type 0
Settled found v =
    if is_null v then found ≡ none else (w : Value) × (found ≡ some w) × (merge_patch w v ≡ w)

abbrev Absorbs : Members → Members → Type 0
Absorbs obj end = Unit
Absorbs obj (member k v rest) = Settled (get k obj) v × Absorbs obj rest

write-Settled :
    (k : String) (v : Value) (obj : Members)
    → Settled (get k obj) v
    → write_member (is_null v) k (merge_patch (or_null (get k obj)) v) obj ≡ obj
unfolding write_member
write-Settled k v obj h = elim (Bool-cases (is_null v)) [
  | inl e ↦ rw e (remove_absent k obj (rw e at h))
  | inr e ↦ let (w, found, same) = rw e at h in rw (e, found, same) (insert_same k w obj found)
]

merge-Absorbs : (obj entries : Members) → Absorbs obj entries → merge_entries obj entries ≡ obj
unfolding merge_patch
merge-Absorbs obj end h = refl
merge-Absorbs obj (member k v rest) h = rw (write-Settled k v obj h.0) (merge-Absorbs obj rest h.1)

get-member : (k : String) (v : Value) (rest : Members) → get k (member k v rest) ≡ some v
unfolding get
get-member k v rest = ground (arith, same_text_iff k k)

Settled-by :
    (k : String) (v : Value) (obj rest : Members)
    → IsProperMap (member k v rest)
    → (merge_patch (merge_patch (or_null (get k obj)) v) v ≡ merge_patch (or_null (get k obj)) v)
    → Settled (get k (merge_entries obj (member k v rest))) v
Settled-by k v obj rest h again = elim (Bool-cases (is_null v)) [
  | inl e ↦ rw (get_here, e)
  | inr e ↦ rw (get_here, e) ((merge_patch (or_null (get k obj)) v, refl, again))
]
  where
    get_here : get k (merge_entries obj (member k v rest)) ≡ merged (get k obj) (some v)
    get_here =
        get-merge_entries k obj (member k v rest) h ∙ ap (merged (get k obj)) (get-member k v rest)

mutual
  unfolding merge_patch IsProper

  -- A value and the members of an object, by recursion on the patch.
  merge_patch_twice :
      (target patch : Value)
      → IsProper patch
      → merge_patch (merge_patch target patch) patch ≡ merge_patch target patch
  merge_patch_twice target null h = refl
  merge_patch_twice target (bool b) h = refl
  merge_patch_twice target (number n) h = refl
  merge_patch_twice target (string s) h = refl
  merge_patch_twice target (array xs) h = refl
  merge_patch_twice target (object entries) h = ap object (
      merge-Absorbs (merge_entries (as_members target) entries) entries
        (merge_entries-Absorbs (as_members target) entries h))

  merge_entries-Absorbs :
      (obj entries : Members) → IsProperMap entries → Absorbs (merge_entries obj entries) entries
  merge_entries-Absorbs obj end h = tt
  merge_entries-Absorbs obj (member k v rest) h = (
    Settled-by k v obj rest h (merge_patch_twice (or_null (get k obj)) v h.1),
    merge_entries-Absorbs (write_member (is_null v) k (merge_patch (or_null (get k obj)) v) obj)
        rest h.2,
  )

-- A patch that is delivered twice leaves what it leaves delivered once, at every depth.
pub merge_patch_idem :
    (target patch : Value)
    → IsProper patch
    → merge_patch (merge_patch target patch) patch ≡ merge_patch target patch
merge_patch_idem target patch h = merge_patch_twice target patch h
