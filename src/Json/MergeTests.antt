-- ===== src/Json/MergeTests.antt =====
-- Cases of RFC 7386's appendix, as the tests of merge_patch.rs run them.
use rbpmn.Common.{◌≡◌, refl}
use rbpmn.Json.Values.{null, string, object, end, member, get, insert, remove}
use rbpmn.Json.Merge.{merge_patch, write_member}

nested :
    merge_patch
      (object (member "a" (object (member "b" (string "c") end)) end))
      (object (member "a" (object (member "b" (string "d") (member "c" null end))) end))
    ≡ object (member "a" (object (member "b" (string "d") end)) end)
unfolding merge_patch get insert remove write_member
nested = refl
