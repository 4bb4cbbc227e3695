-- ===== src/Step/Arm.antt =====
-- The methods of `Advancer` that arm timers and open subscriptions.
pub mod Repeats
use rbpmn.Common.{
  ℕ, ◌-◌, String, Bool, true, false, not, ◌&&◌, Option, none, some, List, [], ◌∷◌, any, ◌==◌,
  same_text, if◌then◌else◌,
}
use rbpmn.Condition.Decimals.{codes}
use rbpmn.Iso8601.Float.{Float}
use rbpmn.Iso8601.Texts.{Checked, good, bad}
use rbpmn.Iso8601.Cycle.{CycleParts, split_cycle}
use rbpmn.Json.{Value, number, string}
use rbpmn.Json.Paths.{resolve as resolve_path}
use rbpmn.Process.{
  NodeIx, ExecutableProcess, ExecKind, timer_boundary, message_boundary, TimerDue, cycle,
  TimerSource, Platform, resolved, unresolved, resolve, name, message_arm, kind_of, node_id,
}
use rbpmn.State.{
  InstanceState, TokenId, TimerId, SubscriptionId, SubscriptionState, TimerState, alloc_timer,
  alloc_subscription,
}
use rbpmn.Event.{
  timer_armed, message_subscribed, correlation_failed, duplicate_subscription, timer_resolve_failed,
  Event,
}
use rbpmn.Step.Outcome.{Advancer, ArmFailure, unusable, duplicate, push_event}
use rbpmn.Step.Withdraw.{freeze}

-- The outcome of arming: done, frozen at an incident, or a panic.
pub data Arming {ℓ} (A : Type ℓ) : Type ℓ where
  armed : A → Advancer → Arming A
  frozen : Advancer → Arming A
  broken : Advancer → Arming A

-- What `arm_key` finds: the message and the key's value, a failure, or no message arm at all, which
-- is `unreachable!`.
pub data ArmKey : Type 0 where
  opens : String → String → ArmKey
  fails : ArmFailure → ArmKey
  no_arm : ArmKey

-- A key is a string or an exact integer.
abbrev pub key_text : Platform → Value → Option String
key_text lib (string s) = some s
key_text lib (number n) = lib.exact_integer n
key_text lib _ = none

abbrev pub is_excluded : Option SubscriptionId → SubscriptionId → Bool
is_excluded none id = false
is_excluded (some e) id = e == id

abbrev pub waits_on : String → String → SubscriptionState → Bool
waits_on message key s = same_text s.message message && same_text s.key key

unfoldable pub arm_with :
    InstanceState → String → List String → Option String → Option SubscriptionId → ArmKey
arm_with s message path none excluding = fails (unusable path)
arm_with s message path (some key) excluding =
    if any (λ e. not (is_excluded excluding e.0) && waits_on message key e.1) s.subscriptions
    then fails (duplicate message key)
    else opens message key

-- The repeat count of a cycle that was read.
abbrev pub repeats_of : (float : Float) → Checked (CycleParts float) → Option ℕ
repeats_of float (good parts) = parts.repeats
repeats_of float (bad _) = none

abbrev pub cycle_repeats : Platform → TimerDue → Option ℕ
cycle_repeats lib (cycle text) = repeats_of lib.float (split_cycle lib.float (codes text))
cycle_repeats lib _ = none

-- `remaining.map(|r| r.saturating_sub(1))`: `-` on ℕ stops at 0 too.
abbrev pub counted_down : Option ℕ → Option ℕ
counted_down none = none
counted_down (some r) = some (r - 1)

abbrev pub is_last : Option ℕ → Bool
is_last none = false
is_last (some r) = r == 0

abbrev pub is_cycle : TimerDue → Bool
is_cycle (cycle _) = true
is_cycle _ = false

module _ (lib : Platform) (proc : ExecutableProcess) where
  unfoldable pub arm_key : InstanceState → Value → NodeIx → Option SubscriptionId → ArmKey
  arm_key s variables element excluding = elim (message_arm proc element) [
    | none ↦ no_arm
    | some (message, path) ↦
        arm_with s message path (key_text lib (resolve_path variables path)) excluding
  ]

  -- Allocates a timer and says so.
  unfoldable pub record_timer :
      TokenId → NodeIx → TimerDue → Option ℕ → Option TimerId → Advancer → TimerId × Advancer
  record_timer token element due remaining continues a =
      let (id, s) =
        alloc_timer (record { element = element; token = token; due = due; remaining = remaining })
          a.state in
      (
        id,
        push_event (timer_armed id (node_id proc element) due token continues remaining)
            (record a { state = s }),
      )

  unfoldable pub arm_timer : TokenId → NodeIx → TimerSource → Advancer → Arming TimerId
  arm_timer token element source a = elim (resolve lib source a.state.variables) [
    | resolved due ↦
        let (id, b) = record_timer token element due (cycle_repeats lib due) none a in armed id b
    | unresolved reason ↦ frozen (
        freeze proc token element none none
          (push_event (timer_resolve_failed (node_id proc element) (name source) reason) a))
  ]

  -- A cycle fired: the next occurrence, unless that was the last.
  unfoldable pub rearm_cycle : TimerId → TimerState → Advancer → Advancer
  rearm_cycle fired t a =
      if not (is_cycle t.due)
      then a
      else if is_last (counted_down t.remaining)
      then a
      else (record_timer t.token t.element t.due (counted_down t.remaining) (some fired) a).1

  unfoldable pub arm_failed : NodeIx → ArmFailure → Event
  arm_failed element (unusable path) = correlation_failed (node_id proc element) path
  arm_failed element (duplicate message key) =
      duplicate_subscription (node_id proc element) message key

  unfoldable pub subscribe : TokenId → NodeIx → Advancer → Arming SubscriptionId
  subscribe token element a = elim (arm_key a.state a.state.variables element none) [
    | no_arm ↦ broken a
    | fails failure ↦
        frozen (freeze proc token element none none (push_event (arm_failed element failure) a))
    | opens message key ↦
        let (id, s) =
          alloc_subscription
            (record { element = element; token = token; message = message; key = key }) a.state in
        armed id (
          push_event (message_subscribed id (node_id proc element) message key token)
            (record a { state = s }))
  ]

  -- Arms one boundary of the kinds that `boundaries` holds.
  unfoldable pub arm_boundary : TokenId → NodeIx → ExecKind → Advancer → Arming ℕ
  arm_boundary token b (timer_boundary due _) a = arm_timer token b due a
  arm_boundary token b (message_boundary _ _ _) a = subscribe token b a
  arm_boundary token b _ a = broken a

  unfoldable pub arm_each : List NodeIx → TokenId → Advancer → Arming (Unit {0})
  arm_each [] token a = armed tt a
  arm_each (b ∷ bs) token a = elim (arm_boundary token b (kind_of proc b) a) [
    | armed _ a' ↦ arm_each bs token a'
    | frozen a' ↦ frozen a'
    | broken a' ↦ broken a'
  ]

  -- The host's boundaries on its parked token, in declaration order.
  unfoldable pub arm_boundaries : TokenId → NodeIx → Advancer → Arming (Unit {0})
  arm_boundaries token host a = arm_each (proc.boundaries host) token a
