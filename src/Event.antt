-- ===== src/Event.antt =====
-- event.rs: what a step reports, and a repair's disposition as it is recorded.
use rbpmn.Common.{ℕ, String, Option, List}
use rbpmn.Json.{Value}
use rbpmn.Process.{TimerDue, WorkKind, ResolveFailure, SourceName}
use rbpmn.State.{TokenId, WorkItemId, TimerId, SubscriptionId}

pub data RepairKind : Type 0 where
  retry advance divert abandon abandon_instance : RepairKind

pub data Event : Type 0 where
  instance_started : Value → Event
  element_started element_completed : String → Event
  flow_taken : String → Event
  work_item_created : WorkItemId → String → WorkKind → String → Event
  work_item_completed work_item_cancelled : WorkItemId → String → Event
  work_item_failed : WorkItemId → String → Option String → Event
  decision_requested : String → String → Event
  decision_evaluated : String → Value → Option String → Event
  -- element, code, detail, incident
  incident_raised : String → Option String → Option String → ℕ → Event
  -- incident, element, disposition, code, answer, reason
  incident_repaired : ℕ → String → RepairKind → Option String → Option Value → String → Event
  variables_patched : Value → Event
  -- id, element, due, token, continues, remaining
  timer_armed : TimerId → String → TimerDue → TokenId → Option TimerId → Option ℕ → Event
  timer_fired timer_cancelled : TimerId → String → Event
  -- id, element, message, key, token
  message_subscribed : SubscriptionId → String → String → String → TokenId → Event
  message_received subscription_cancelled : SubscriptionId → String → String → Event
  correlation_failed : String → List String → Event
  timer_resolve_failed : String → SourceName → ResolveFailure → Event
  duplicate_subscription : String → String → String → Event
  instance_completed instance_terminated : Event
