-- ===== src/Examples.antt =====
-- Small processes that the tests and the instances of the theorems run.
pub mod Runs
mod Witnesses
mod Documents
mod Texts
mod Tended
mod Scopes
use rbpmn.Common.{
  ℕ, ◌+◌, ◌-◌, ◌*◌, String, Bool, true, false, Option, none, some, List, [], ◌∷◌, get_or, ltb, leb,
  ◌==◌,
}
use rbpmn.Iso8601.Float.{Float}
use rbpmn.Process.{
  ExecutableProcess, ExecNode, ExecFlow, ExecKind, Platform, TimerDue, literal, duration, start,
  end, task, timer_boundary, error_boundary, sub_process, service,
}
use rbpmn.Json.{Value, null, number}

-- The value of digits over `d`; after a point each digit multiplies `d` by ten.
abbrev pub fractional : ℕ → ℕ → List ℕ → ℕ × ℕ
fractional n d [] = (n, d)
fractional n d (c ∷ s) = fractional (n * 10 + (c - 48)) (d * 10) s

abbrev pub exact : ℕ → List ℕ → ℕ × ℕ
exact n [] = (n, 1)
exact n (c ∷ s) = elim (c == b'.') [ true ↦ fractional n 1 s | false ↦ exact (n * 10 + (c - 48)) s ]

-- Exact quotients in place of doubles.
abbrev pub quotients : Float
quotients = record {
  F = ℕ × ℕ;
  of_digits = λ s. exact 0 s;
  lit = λ n d. (n, d);
  add = λ a b. (a.0 * b.1 + b.0 * a.1, a.1 * b.1);
  mul = λ a b. (a.0 * b.0, a.1 * b.1);
  div = λ a b. (a.0 * b.1, a.1 * b.0);
  less = λ a b. ltb (a.0 * b.1) (b.0 * a.1);
  at_most = λ a b. leb (a.0 * b.1) (b.0 * a.1);
}

-- Numbers are their own text.
abbrev pub plain : Platform
plain = record { exact_integer = λ n. some n; float = quotients }

abbrev pub node_at : String → ExecKind → List ℕ → List ℕ → ExecNode
node_at id kind incoming outgoing = record {
  id = id;
  kind = kind;
  incoming = incoming;
  outgoing = outgoing;
}

abbrev pub flow_at : String → ℕ → ℕ → ExecFlow
flow_at id source target = record { id = id; source = source; target = target; condition = none }

-- A service task with an interrupting deadline.
abbrev pub order : ExecutableProcess
order = record {
  process_id = "order";
  node = λ ix.
      get_or
        (node_at "start" start [] (0 ∷ [])
          ∷ node_at "charge" (task service "payments") (0 ∷ []) (1 ∷ [])
          ∷ node_at "done" end (1 ∷ []) []
          ∷ node_at "late" (timer_boundary (literal (duration "PT1H")) true) [] (2 ∷ [])
          ∷ node_at "gave_up" end (2 ∷ []) []
          ∷ [])
        ix (node_at "done" end [] []);
  flow = λ ix.
      get_or (flow_at "f0" 0 1 ∷ flow_at "f1" 1 2 ∷ flow_at "f2" 3 4 ∷ []) ix (flow_at "f1" 1 2);
  error_boundaries = λ _. [];
  boundaries = λ ix. get_or ([] ∷ (3 ∷ []) ∷ []) ix [];
  host_of = λ ix. get_or (none ∷ none ∷ none ∷ some 1 ∷ []) ix none;
  on_side_path = λ _. false;
  scope_start = λ _. 0;
  start = 0;
}

-- A subprocess with one task inside, and a boundary on it for one code of error.
abbrev pub claims : ExecutableProcess
claims = record {
  process_id = "claims";
  node = λ ix.
      get_or
        (node_at "start" start [] (0 ∷ [])
          ∷ node_at "assess" (sub_process 1) (0 ∷ []) (1 ∷ [])
          ∷ node_at "done" end (1 ∷ []) []
          ∷ node_at "begin" start [] (2 ∷ [])
          ∷ node_at "inspect" (task service "inspections") (2 ∷ []) (3 ∷ [])
          ∷ node_at "assessed" end (3 ∷ []) []
          ∷ node_at "fraud" (error_boundary (some "FRAUD")) [] (4 ∷ [])
          ∷ node_at "reported" end (4 ∷ []) []
          ∷ [])
        ix (node_at "done" end [] []);
  flow = λ ix.
      get_or
        (flow_at "f0" 0 1
          ∷ flow_at "f1" 1 2
          ∷ flow_at "f2" 3 4
          ∷ flow_at "f3" 4 5
          ∷ flow_at "f4" 6 7
          ∷ [])
        ix (flow_at "f1" 1 2);
  error_boundaries = λ ix. get_or ([] ∷ ((some "FRAUD", 6) ∷ []) ∷ []) ix [];
  boundaries = λ _. [];
  host_of = λ ix. get_or (none ∷ none ∷ none ∷ none ∷ none ∷ none ∷ some 1 ∷ []) ix none;
  on_side_path = λ _. false;
  scope_start = λ _. 3;
  start = 0;
}
