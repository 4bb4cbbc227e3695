-- ===== src/Lib.antt =====
-- rbpmn: the execution core of a BPMN engine.
--
-- The core is a pure step function: `step(process, state, command)` changes the state of one instance
-- and returns the events that the engine stores. A command is checked against the state, its arm makes
-- an advancer, the advancer moves tokens from node to node through a queue until every token waits,
-- and the events come back in the order in which things happened. The conditions on flows and the
-- decisions' answers read and write one JSON document.
--
--   Json            crates/rbpmn-core/src/merge_patch.rs (merge_patch), the document's values;
--                   Json/Paths: `resolve` of crates/rbpmn-model/src/condition.rs, `assign` of step.rs
--   Condition       crates/rbpmn-model/src/condition.rs: `eval` and what it calls; Condition/Decimals:
--                   compare_decimals, decimal_parts, compare_magnitudes; Condition/Lexer: `lex`,
--                   read_segment; Condition/Parser: `parse`; Condition/Qname: parse_qname
--   Iso8601         crates/rbpmn-model/src/iso8601.rs: validate_datetime, validate_duration,
--                   duration_parts, split_cycle, fixed_length_seconds
--   Lint            crates/rbpmn-model/src/lint/structure.rs: Lint/Structure: Graph, check;
--                   Lint/Reach: reach
--   Process         crates/rbpmn-core/src/compile.rs: ExecutableProcess with its accessors, TimerSource
--   State           crates/rbpmn-core/src/state.rs; State/Rows: rehydrate, counters, look-ups
--   Event           crates/rbpmn-core/src/event.rs
--   Step            crates/rbpmn-core/src/step.rs:
--     Outcome         Command, Disposition, StepError, Move, Advancer
--     Withdraw        cancel_work_item, withdraw_arms, tear_down_scope, terminate, freeze
--     Arm             arm_key, arm_timer, record_timer, rearm_cycle, subscribe, arm_boundaries
--     Advance         leave, enter_join, complete_scope; Advance/Enter: enter, run
--     Boundary        outward, catcher, interrupt_host, interrupt_to_boundary, take_gateway_path
--     Commands        step: Items (start, work items, decisions), Timers, Messages, Repair
--     OpenIncident    open_incident, landing_codes
--     Claims          what the timers, subscriptions, open items and scopes of a state ask of the
--                     tokens that they name, after spec/TimerTeardown.tla
--   Examples        small processes, their runs, and the theorems at concrete inputs
--
-- A method of the source that changes the state and the advancer is a function from an Advancer, which
-- holds the state too, to an Advancer, or to a Run where the method can fail. A Run that failed keeps
-- the state as it was at the failure, since the source keeps what it wrote. The arms of a match are
-- functions of their own where several theorems need them.
--
-- The proofs about Claims take one operation after another: an update of the state and what it asks
-- for (Update, Queue, Install), the methods that take away (Less, Reduce, Stop), those that move
-- tokens (Moves, Join, Arms, Nodes, Enter, Boundary), the commands (Items, Arrivals, Repair,
-- Commands), and the states that a sequence of commands reaches (History, Dangling).
--
-- What the code is compared with stands in relations of its own: the Gregorian calendar
-- (Iso8601/Datetime/Months), the text of a cycle (Iso8601/Cycle/Pieces), the characters of a name
-- (Condition/Qname/Names), the grammar of conditions (Condition/Parser/Grammar), the links between the
-- nodes of a scope (Lint/Structure/Links) and the boundaries that take an error
-- (Step/Boundary/Handles).
--
-- The maps are association lists in the order of their keys, as a BTreeMap iterates. The ids are
-- natural numbers without a bound: each counts allocations one by one from 0 in a u64. The exponents of
-- decimals are unbounded integers: the source adds an i64 and a length in an i128. The tables of a
-- process are total functions, since an index comes out of `compile`. The text of an error is left out,
-- and an Invariant error or a panic carries the name of its cause.
--
-- Fuel: the loop of `run` takes one unit for each move, and a run that needs more gives no reply
-- (`exhausted`), since a process with a cycle of gateways moves for ever. The loop of `scope_subtree`
-- gets a round for each open scope, of which it visits each once, and two more. The loop of `outward`
-- gets a round for each id up to the scope's own, since a scope lies in an older one.
--
-- The lexer of conditions gets a unit of fuel for each character, the parser three for each token and
-- three more: a call of `or_expr`, `and_expr` and `atom` each costs one, and each round reads a token.
--
-- The traversal of the lint gets a round for each node and each seed, as a node is pushed when it is
-- marked.
--
-- The record Platform stands for the text of an exact integer (serde_json) and, in the record Float,
-- for the doubles of the host: what a validator of durations adds, multiplies and compares. Nothing is
-- assumed of either. The offset of a condition counts the bytes of its text, which is walked by its
-- characters; no byte inside a longer character begins a token.
--
-- Not modelled: `compile` itself, the lint but for its structural check, the parser of BPMN, the
-- state-space check, bindings and retry policies, and the crates around the core (Postgres, HTTP, DMN,
-- WASM, UI), which are I/O, glue or third-party code.
mod Common
pub mod Json
pub mod Condition
pub mod Iso8601
pub mod Lint
pub mod Process
pub mod State
pub mod Event
pub mod Step
pub mod Examples
