-- ===== src/Step/Arm/Repeats.antt =====
-- What a timer counts down from, of `arm_timer`, `record_timer` and `rearm_cycle` (step.rs): from the
-- text of a cycle to the firings that it has.
use rbpmn.Common.{ℕ, zero, suc, ◌≤◌, ◌≡◌, refl, String, Option, none, some, List, [], ◌∷◌, arith}
use rbpmn.Common.Maps.{Map, get, insert, remove, get-insert}
use rbpmn.Condition.Decimals.{codes}
use rbpmn.Json.{Value, string}
use rbpmn.Json.Paths.{resolve as resolve_path}
use rbpmn.Iso8601.Texts.{good}
use rbpmn.Iso8601.Cycle.{CycleParts, split_cycle, validate_cycle}
use rbpmn.Iso8601.Cycle.Accepted.{IsCount, split_cycle-IsRepeating}
use rbpmn.Process.{
  NodeIx, ExecutableProcess, cycle, TimerSource, literal, kind_cycle, variable, Platform, resolved,
  resolve, due_of_text,
}
use rbpmn.State.{TokenId, TimerId, TimerState}
use rbpmn.Step.Outcome.{Advancer}
use rbpmn.Step.Arm.{armed, record_timer, arm_timer, rearm_cycle}

-- The text of a cycle that a source stands for: its own, or the one of the variable that it names.
pub data Names (variables : Value) : TimerSource → String → Type 0 where
  names_literal : {text : String} → Names variables (literal (cycle text)) text
  names_variable :
      {path : List String} {text : String}
      → resolve_path variables path ≡ string text
      → Names variables (variable kind_cycle path) text

-- A timer of a cycle.
abbrev pub cycle_timer : NodeIx → TokenId → String → Option ℕ → TimerState
cycle_timer element token text remaining = record {
  element = element;
  token = token;
  due = cycle text;
  remaining = remaining;
}

get-insert_self : (k : ℕ) (t : TimerState) (m : Map TimerState) → get k (insert k t m) ≡ some t
get-insert_self k t m = ground (arith, get-insert k k t m)

module _ (lib : Platform) where
  due_of_text-cycle :
      (text : String) (p : CycleParts lib.float)
      → split_cycle lib.float (codes text) ≡ good p
      → due_of_text lib kind_cycle (string text) ≡ resolved (cycle text)
  unfolding due_of_text validate_cycle
  due_of_text-cycle text p h = rw (h, due_of_text, validate_cycle) refl

  resolve-Names :
      (variables : Value) (source : TimerSource) (text : String) (p : CycleParts lib.float)
      → Names variables source text
      → split_cycle lib.float (codes text) ≡ good p
      → resolve lib source variables ≡ resolved (cycle text)
  unfolding resolve
  resolve-Names variables (literal due) text p names_literal h = refl
  resolve-Names variables (variable kind path) text p (names_variable e) h =
      rw e (due_of_text-cycle text p h)

module _ (lib : Platform) (proc : ExecutableProcess) where
  -- Where a source names a text that `split_cycle` reads, arming it does not freeze: the timer is in
  -- the state, on the token and the element, and it counts down from the repeats of the text, which
  -- are none or one to a million.
  pub arm_timer-split_cycle :
      (token : TokenId) (element : NodeIx) (source : TimerSource) (a : Advancer) (text : String)
      (p : CycleParts lib.float)
      → Names a.state.variables source text
      → split_cycle lib.float (codes text) ≡ good p
      → (id : TimerId) × (b : Advancer) × ((arm_timer lib proc token element source a ≡ armed id b)
          × ((get id b.state.timers ≡ some (cycle_timer element token text p.repeats))
              × IsCount p.repeats))
  unfolding arm_timer record_timer
  arm_timer-split_cycle token element source a text p n h =
      let (id, b) = record_timer lib proc token element (cycle text) p.repeats none a in
      (
        id,
        b,
        (
          rw (resolve-Names lib a.state.variables source text p n h, arm_timer, h) refl,
          (
            get-insert_self a.state.next_timer _ a.state.timers,
            (split_cycle-IsRepeating lib.float (codes text) p h).1.1.1.count,
          ),
        ),
      )

  -- The firings of a timer, as often as it fires but at most `fuel` times. It leaves the state as it
  -- fires, and its next occurrence, if it has one, is under the next id.
  unfoldable pub firings : ℕ → TimerId → TimerState → Advancer → List TimerState
  firings zero id t a = []
  firings (suc fuel) id t a =
      let b =
        rearm_cycle lib proc id t
          (record a { state = record (a.state) { timers = remove id a.state.timers } }) in
      elim (get a.state.next_timer b.state.timers) [
        | none ↦ t ∷ []
        | some next ↦ t ∷ firings fuel a.state.next_timer next b
      ]

  -- What counts down: from a number to 1, and without end from none.
  abbrev pub countdown : ℕ → (Option ℕ → TimerState) → Option ℕ → List TimerState
  countdown zero timer r = []
  countdown (suc fuel) timer none = timer none ∷ countdown fuel timer none
  countdown (suc fuel) timer (some zero) = []
  countdown (suc fuel) timer (some (suc n)) = timer (some (suc n)) ∷ countdown fuel timer (some n)

  -- No timer has an id that is yet to be given.
  abbrev pub IsFresh : Advancer → Type 0
  IsFresh a = (k : ℕ) → a.state.next_timer ≤ k → get k a.state.timers ≡ none

  -- The state after an occurrence was armed.
  abbrev occurred : TimerId → TimerState → Advancer → Advancer
  occurred id next a =
      (record_timer lib proc next.token next.element next.due next.remaining (some id)
        (record a { state = record (a.state) { timers = remove id a.state.timers } })).1
