-- ===== src/Step/Commands.antt =====
-- `step`: the commands, an arm for each.
pub mod Repair
pub mod Items
pub mod Timers
pub mod Messages
use rbpmn.Common.{ℕ}
use rbpmn.Process.{ExecutableProcess, Platform}
use rbpmn.State.{InstanceState}
use rbpmn.Step.Outcome.{Command, Stepped}
use Repair.{repair}
unfoldable pub use Items.*
unfoldable pub use Timers.*
unfoldable pub use Messages.*

module _ (lib : Platform) (proc : ExecutableProcess) (fuel : ℕ) where
  -- `step`.
  unfoldable pub step : Command → InstanceState → Stepped
  step (Command.start variables) s = step_start lib proc fuel variables s
  step (Command.complete_work_item id patch) s = step_complete_work_item lib proc fuel id patch s
  step (Command.raise_error id code) s = step_raise_error lib proc fuel id code s
  step (Command.fire_timer id) s = step_fire_timer lib proc fuel id s
  step (Command.deliver_message id patch) s = step_deliver_message lib proc fuel id patch s
  step (Command.complete_decision token answer reason) s =
      step_complete_decision lib proc fuel token answer reason s
  step (Command.repair n d reason) s = repair proc lib fuel n d reason s
