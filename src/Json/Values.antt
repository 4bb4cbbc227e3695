-- ===== src/Json/Values.antt =====
-- A JSON value and the members of an object. `arbitrary_precision` keeps a number as its text, and
-- an object's map has each key once; the order of its members is never observed here.

use rbpmn.Common.{
  String, ◌≡◌, refl, Bool, true, false, Option, none, some, arith, same_text, same_text_iff,
  if◌then◌else◌,
}

mutual
  pub data Value : Type 0 where
    null : Value
    bool : Bool → Value
    number : String → Value
    string : String → Value
    array : Items → Value
    object : Members → Value

  pub data Items : Type 0 where
    nil : Items
    cons : Value → Items → Items

  pub data Members : Type 0 where
    end : Members
    member : String → Value → Members → Members

abbrev pub is_null : Value → Bool
is_null null = true
is_null _ = false

abbrev pub is_object : Value → Bool
is_object (object _) = true
is_object _ = false

-- The members of an object, none of another value.
abbrev pub as_members : Value → Members
as_members (object m) = m
as_members _ = end

unfoldable pub get : String → Members → Option Value
get k end = none
get k (member j v m) = if same_text j k then some v else get k m

-- `Map::insert`: overwrites the member in its place, or adds it.
unfoldable pub insert : String → Value → Members → Members
insert k v end = member k v end
insert k v (member j w m) = if same_text j k then member j v m else member j w (insert k v m)

-- `Map::remove`.
unfoldable pub remove : String → Members → Members
remove k end = end
remove k (member j w m) = let rest = remove k m in if same_text j k then rest else member j w rest

-- What `obj.entry(key).or_insert(Value::Null)` reads.
abbrev pub or_null : Option Value → Value
or_null none = null
or_null (some v) = v

pub member_or_null : String → Members → Value
member_or_null k m = or_null (get k m)

-- `*patch == Value::Object(Map::new())`.
unfoldable pub is_empty : Value → Bool
is_empty (object end) = true
is_empty _ = false

pub get-insert :
    (k q : String) (v : Value) (m : Members)
    → get q (insert k v m) ≡ (if same_text k q then some v else get q m)
unfolding get insert
get-insert k q v end = refl
get-insert k q v (member j w m) =
    ground (arith, same_text_iff j k, same_text_iff j q, same_text_iff k q, get-insert k q v m)

pub get-remove :
    (k q : String) (m : Members) → get q (remove k m) ≡ (if same_text k q then none else get q m)
unfolding get remove
get-remove k q end = ground arith
get-remove k q (member j w m) =
    ground (arith, same_text_iff j k, same_text_iff j q, same_text_iff k q, get-remove k q m)

-- A write of what is there, and a removal of what is not, leave the object as it is.
pub insert_same : (k : String) (v : Value) (m : Members) → get k m ≡ some v → insert k v m ≡ m
unfolding get insert
insert_same k v end h = ground arith
insert_same k v (member j w m) h = ground (arith, insert_same k v m)

pub remove_absent : (k : String) (m : Members) → get k m ≡ none → remove k m ≡ m
unfolding get remove
remove_absent k end h = refl
remove_absent k (member j w m) h = ground (arith, remove_absent k m)

-- A map holds each key once, at every depth of a document.
unfoldable mutual
  pub IsProper : Value → Type 0
  IsProper (array xs) = AreProper xs
  IsProper (object m) = IsProperMap m
  IsProper _ = Unit

  pub AreProper : Items → Type 0
  AreProper nil = Unit
  AreProper (cons x xs) = IsProper x × AreProper xs

  pub IsProperMap : Members → Type 0
  IsProperMap end = Unit
  IsProperMap (member k v m) = (get k m ≡ none) × IsProper v × IsProperMap m
