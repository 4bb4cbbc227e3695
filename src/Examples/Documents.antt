-- ===== src/Examples/Documents.antt =====
-- The theorems on documents and conditions at concrete inputs.
use rbpmn.Common.{◌≡◌, refl, true, false, [], ◌∷◌}
use rbpmn.Json.{null, bool, number, string, object}
use rbpmn.Json.Values.{Members, end, member, get as get_member, IsProper}
use rbpmn.Json.Merge.{merge_patch, merge_entries}
use rbpmn.Json.Merge.Laws.{merged, get-merge_entries, merge_patch_idem}
use rbpmn.Json.Paths.{resolve, assign}
use rbpmn.Json.Paths.Laws.{resolve-assign, resolve-assign-Part}
use rbpmn.Condition.{
  Exprs, cmp, conj, disj, nil, cons, op_eq, op_ne, op_lt, op_le, op_gt, op_ge, Literal, num,
  compare, negate, truth, eval,
}
use rbpmn.Condition.Logic.{conjunction, disjunction, truth-kleene, eval-missing, compare-negate}
use rbpmn.Condition.Decimals.{compare_decimals}
use rbpmn.Condition.Decimals.Order.{map_reversed, compare_decimals-reversed}

abbrev document : Members
document = member "order" (object (member "id" (number "7") end)) (member "paid" (bool false) end)

abbrev patch : Members
patch = member "paid" (bool true) (member "order" (object (member "id" null end)) end)

IsProper-patch : IsProper (object patch)
unfolding IsProper get_member
IsProper-patch = (refl, tt, (refl, (refl, tt, tt), tt))

get-merge_entries_example :
    get_member "paid" (merge_entries document patch)
    ≡ merged (get_member "paid" document) (get_member "paid" patch)
unfolding IsProper get_member
get-merge_entries_example = get-merge_entries "paid" document patch IsProper-patch

merge_patch_idem_example :
    merge_patch (merge_patch (object document) (object patch)) (object patch)
    ≡ merge_patch (object document) (object patch)
unfolding IsProper get_member
merge_patch_idem_example = merge_patch_idem (object document) (object patch) IsProper-patch

resolve-assign_example :
    resolve
      (assign (object document) ("order" ∷ "grade" ∷ []) (string "A"))
      ("order" ∷ "grade" ∷ [])
    ≡ string "A"
resolve-assign_example = resolve-assign (object document) ("order" ∷ "grade" ∷ []) (string "A")

resolve-assign-Part_example :
    resolve (assign (object document) ("order" ∷ "grade" ∷ []) (string "A")) ("order" ∷ "id" ∷ [])
    ≡ resolve (object document) ("order" ∷ "id" ∷ [])
resolve-assign-Part_example =
    resolve-assign-Part (object document) ("order" ∷ "grade" ∷ []) ("order" ∷ "id" ∷ [])
      (string "A") tt

-- One part is true of the document, and the other reads a missing value.
abbrev parts : Exprs
parts =
    cons (cmp ("paid" ∷ []) op_eq (Literal.bool false))
      (cons (cmp ("total" ∷ []) op_gt (num "10")) nil)

truth-kleene_example :
    (truth (conj parts) (object document) ≡ conjunction parts (object document))
    × (truth (disj parts) (object document) ≡ disjunction parts (object document))
truth-kleene_example = truth-kleene parts (object document)

eval-missing_example : (op_eq ≡ op_eq) × (Literal.null ≡ Literal.null)
unfolding resolve get_member eval truth compare
eval-missing_example = eval-missing ("total" ∷ []) op_eq Literal.null (object document) refl refl

compare-negate_example :
    (compare (number "7") op_ne (num "10") ≡ negate (compare (number "7") op_eq (num "10")))
    × (compare (number "7") op_ge (num "10") ≡ negate (compare (number "7") op_lt (num "10")))
    × (compare (number "7") op_gt (num "10") ≡ negate (compare (number "7") op_le (num "10")))
compare-negate_example = compare-negate (number "7") (num "10")

compare_decimals-reversed_example :
    compare_decimals "1.50" "-2e3" ≡ map_reversed (compare_decimals "-2e3" "1.50")
compare_decimals-reversed_example = compare_decimals-reversed "1.50" "-2e3"
