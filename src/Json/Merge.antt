-- ===== src/Json/Merge.antt =====
-- merge_patch.rs: RFC 7386, by the loop of the source.
pub mod Laws
use rbpmn.Common.{String, ◌≡◌, refl, Bool, true, false, Option, none, some, arith, if◌then◌else◌}
use rbpmn.Json.Values.{
  Value, Members, null, bool, number, string, array, object, end, member, get, insert, remove,
  is_null, as_members, or_null,
}

-- A null member of the patch removes the key, another one writes the merged value.
unfoldable pub write_member : Bool → String → Value → Members → Members
write_member true key merged obj = remove key obj
write_member false key merged obj = insert key merged obj

unfoldable mutual
  -- A patch that is no object replaces the target; an object is merged into the target's members,
  -- those of an empty object where the target is none.
  pub merge_patch : Value → Value → Value
  merge_patch target (object entries) = object (merge_entries (as_members target) entries)
  merge_patch target null = null
  merge_patch target (bool b) = bool b
  merge_patch target (number n) = number n
  merge_patch target (string s) = string s
  merge_patch target (array xs) = array xs

  -- `for (key, value) in entries`.
  pub merge_entries : Members → Members → Members
  merge_entries obj end = obj
  merge_entries obj (member key value rest) =
      merge_entries
        (write_member (is_null value) key (merge_patch (or_null (get key obj)) value) obj) rest
