-- ===== src/Examples/Runs.antt =====
-- The first lives of the example processes.
use rbpmn.Common.{◌≡◌, refl, none, some}
use rbpmn.Json.{null, object}
use rbpmn.Json.Values.{end}
use rbpmn.State
use rbpmn.State.{InstanceStatus, active, completed, failed}
use rbpmn.Step.Outcome.{Stepped, start, complete_work_item, raise_error, fire_timer, repair, retry}
use rbpmn.Step.Commands.{step}
use rbpmn.Step.Open.{runs}
use rbpmn.Examples.{plain, order, claims}

unfoldable pub begun : Stepped
unfolding runs
begun = step plain order 10 (start null) State.new

unfoldable pub frozen : Stepped
unfolding runs begun
frozen = step plain order 10 (raise_error 0 none) begun.0

unfoldable pub inspecting : Stepped
unfolding runs
inspecting = step plain claims 10 (start null) State.new

begun-active : begun.0.status ≡ active
unfolding begun
begun-active = refl

order-completed :
    (step plain order 10 (complete_work_item 0 (object end)) begun.0).0.status ≡ completed
unfolding runs begun
order-completed = refl

order-late : (step plain order 10 (fire_timer 0) begun.0).0.status ≡ completed
unfolding runs begun
order-late = refl

frozen-failed : frozen.0.status ≡ failed
unfolding frozen
frozen-failed = refl

order-retried :
    (step plain order 10 (repair 0 (retry (object end)) "again") frozen.0).0.status ≡ active
unfolding runs frozen
order-retried = refl

fraud-caught :
    (step plain claims 10 (raise_error 0 (some "FRAUD")) inspecting.0).0.status ≡ completed
unfolding runs inspecting
fraud-caught = refl

fraud-uncaught : (step plain claims 10 (raise_error 0 none) inspecting.0).0.status ≡ failed
unfolding runs inspecting
fraud-uncaught = refl
