-- ===== src/Examples/Scopes.antt =====
-- The theorems on the lint of a scope and on the rows of a state at concrete inputs.
use rbpmn.Common.{
  ℕ, ◌<◌, ◌≡◌, refl, String, Bool, some, List, [], ◌∷◌, arith, Among, first, later, nowhere,
}
use rbpmn.State.Rows.{counters, rehydrate, open_work_items}
use rbpmn.State.Rows.Roundtrip.{IsSorted, rehydrate-counters}
use rbpmn.Lint.Reach.{visit, walk, reach}
use rbpmn.Lint.Reach.Paths.{IsExact, reach-IsExact}
use rbpmn.Lint.Structure.Graph.{
  SequenceFlow, FlowScope, start, end, service_task, index_of, endpoints, edges, host_of,
  boundaries_from, hosts_from, flow_out, flow_in, succs, preds,
}
use rbpmn.Lint.Structure.{
  Diagnostic, cardinality, unresolved, of_kind, each_node, connected, forward, backward, check,
}
use rbpmn.Lint.Structure.WellFormed.{check_total}
use rbpmn.Examples.Runs.{begun}
use rbpmn.Step.Open.{runs}

abbrev flow : String → String → String → SequenceFlow
flow id source target = record { id = id; source = source; target = target }

abbrev charging : FlowScope
charging = record {
  nodes =
      (record { id = "start"; kind = start })
      ∷ (record { id = "charge"; kind = service_task })
      ∷ (record { id = "done"; kind = end })
      ∷ [];
  flows = flow "f0" "start" "charge" ∷ flow "f1" "charge" "done" ∷ [];
}

check_total_example : (ds : List Diagnostic) × (check charging "order" ≡ some ds)
check_total_example = check_total charging "order"

-- The check has nothing to say of that scope.
charging_silent : check charging "order" ≡ some []
unfolding visit walk reach index_of endpoints edges host_of boundaries_from hosts_from flow_out
    flow_in succs preds cardinality unresolved of_kind each_node connected forward backward check
charging_silent = refl

abbrev neighbors : ℕ → List ℕ
neighbors v = 1 ∷ 2 ∷ []

neighbors-lt : (v w : ℕ) → Among w (neighbors v) → w < 3
neighbors-lt v _ first = omega arith
neighbors-lt v _ (later first) = omega arith
neighbors-lt v w (later (later a)) = nowhere a

reach-IsExact_example :
    (found : ℕ → Bool) × ((reach 3 (0 ∷ []) neighbors ≡ some found)
      × IsExact neighbors (0 ∷ []) found)
reach-IsExact_example = reach-IsExact neighbors (0 ∷ []) 3 neighbors-lt

begun-IsSorted : IsSorted begun.0
unfolding begun runs
begun-IsSorted = record {
  tokens = (omega arith, tt);
  work_items = (omega arith, tt);
  timers = (omega arith, tt);
  subscriptions = tt;
  scopes = tt;
  scope_next = omega arith;
}

rehydrate-counters_example :
    rehydrate begun.0.status begun.0.variables begun.0.tokens
      (open_work_items begun.0)
      begun.0.timers
      begun.0.subscriptions
      begun.0.scopes
      (counters begun.0)
    ≡ record (begun.0) { work_items = open_work_items begun.0 }
rehydrate-counters_example = rehydrate-counters begun.0 begun-IsSorted
