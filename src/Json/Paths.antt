-- ===== src/Json/Paths.antt =====
-- Qualified names into the document: `condition::resolve` reads one, `assign` of step.rs writes.
pub mod Laws
use rbpmn.Common.{String, List, [], ◌∷◌}
use rbpmn.Json.Values.{Value, Members, null, object, get, insert, as_members, or_null}

-- `current.get(segment)` looks into an object alone; a missing segment is null.
unfoldable pub resolve : Value → List String → Value
resolve current [] = current
resolve current (segment ∷ path) = resolve (or_null (get segment (as_members current))) path

-- The loop over the parents, which makes an object of whatever stands in the way, and the last
-- insert, as one recursion on the path.
unfoldable pub assign : Value → List String → Value → Value
assign document [] value = value
assign document (segment ∷ []) value = object (insert segment value (as_members document))
assign document (segment ∷ next ∷ path) value = object (
    insert segment (assign (or_null (get segment (as_members document))) (next ∷ path) value)
      (as_members document))
