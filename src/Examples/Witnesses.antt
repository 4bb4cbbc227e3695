-- ===== src/Examples/Witnesses.antt =====
-- The theorems at concrete inputs.
use mathlib.Core.Option.{some-injective}
use mathlib.Core.Path.{subst}
use rbpmn.Common.{
  Among, Among-cons, nowhere, first, ℕ, ◌≡◌, ◌≢◌, ◌↔◌, refl, ap, true, false, none, some, List, [],
  ◌∷◌, inl, inr, arith,
}
use rbpmn.Event.{Event}
use rbpmn.Json.{null, object}
use rbpmn.Json.Values.{end}
use rbpmn.State
use rbpmn.State.{
  scope_subtree, awaiting_decision, terminated, WorkItemState, InstanceState, ScopeState, active,
  failed, WaitKind,
}
use rbpmn.Step.Outcome
use rbpmn.Step.Outcome.{
  Advancer, ok, ◌>>=◌, Reply, events, refused, unknown_work_item, complete_work_item, start, retry,
  push_move, new, Command,
}
use rbpmn.Step.Withdraw.{freeze, contains}
use rbpmn.Step.Withdraw.Freeze.{holds, freeze-holds}
use rbpmn.Step.Boundary.{outward, catcher}
use rbpmn.Step.Boundary.Walk.{
  IsNested, Walk, outermost, enclosed, Catches, NoneCatches, outward-Walk, catcher-Catches,
}
use rbpmn.Step.Advance.Enter.{run, settle_decisions, settle_status}
use rbpmn.Step.Advance.Enter.Reask.{settle_decisions-decides}
use rbpmn.Common.Maps.{get as get_entry}
use rbpmn.Step.Quiescence.{unguarded, run-unguarded}
use rbpmn.Step.Quiescence.Commands.{step-occupied}
use rbpmn.Step.Commands.{step}
use rbpmn.Step.Withdraw.Entries.{AreScopes}
use rbpmn.Step.Withdraw.Subtree.{Inside}
use rbpmn.Step.Withdraw.Emptied.{tear_down_scope-empties}
use rbpmn.Step.Commands.Repair.{resume_halted}
use rbpmn.Step.Commands.Repair.Outside.{IsOutside, IsOutside-same, IsSole}
use rbpmn.Step.Commands.Repair.Asked.{resume_halted-asks}
use rbpmn.Step.Commands.Repair.Resume.{IsDistinct, resume_halted-freeze}
use rbpmn.Step.Errors.{step-refused_unchanged}
use rbpmn.Step.OpenIncident.{
  OpenIncident, open_incident, same_code, add_candidate, declared_code, codes_of, candidates_of,
  host_at, torn_down, land, landing_codes, verdict_on, is_whole, verdict, takes_of, offered,
  option_for, report,
}
use rbpmn.Step.OpenIncident.Agreement.{open_incident-repair, refusal_in, refusal_listed}
use rbpmn.Step.Open.{runs}
use rbpmn.Examples.{plain, order, claims}
use rbpmn.Examples.Runs.{begun, frozen}

-- What the read reports of the frozen order.
reported : OpenIncident
unfolding frozen runs open_incident same_code add_candidate declared_code codes_of candidates_of
    host_at torn_down land landing_codes verdict_on is_whole verdict takes_of offered option_for
    report
reported = elim (open_incident order frozen.0) [
  | none ↦ record { incident = 9; element = ""; resume = ""; halted = 0; options = [] }
  | some r ↦ r
]

open_incident-repair_example :
    refusal_in
      (step plain order 10
        (Outcome.repair reported.incident (retry (object end)) "again")
        frozen.0).1
    ≡ refusal_listed (Outcome.kind (retry (object end))) reported.options
unfolding reported
open_incident-repair_example =
    open_incident-repair order plain 10 frozen.0 reported refl (retry (object end)) "again" refl tt

step-refused_unchanged_example :
    (step plain order 10 (complete_work_item 9 null) begun.0).0 ≡ begun.0
unfolding begun runs
step-refused_unchanged_example =
    step-refused_unchanged plain order 10 (complete_work_item 9 null) begun.0 (unknown_work_item 9)
      refl refl

-- The running order, with a move of one more token in flight.
moving : Advancer
unfolding begun
moving = push_move (record { token = 7; node = 2; via = some 1; scope = 0 }) (new begun.0)

freeze-holds_example : holds 7 (freeze order 0 1 none none moving).state.tokens ≡ true
unfolding moving
freeze-holds_example = freeze-holds order 0 1 none none 7 moving refl (inr (inl refl))

run-unguarded_example : run plain order 10 moving ≡ (
    unguarded plain order 10 moving >>= λ b.
    ok (settle_status plain order (settle_decisions plain order b)))
unfolding moving runs
run-unguarded_example = run-unguarded plain order 10 moving (inl refl)

listed : Reply → List Event
listed (events es) = es
listed _ = []

step-occupied_example : (step plain order 10 (start null) State.new).0.tokens ≢ []
unfolding listed runs
step-occupied_example =
    step-occupied plain order 10 (start null) State.new
      (listed (step plain order 10 (start null) State.new).1) refl refl

-- The claim whose subprocess is open: the host's token waits on it, and an inspection runs inside.
abbrev inside : InstanceState
inside = record State.new {
  status = active;
  tokens =
      (0, record { node = 1; scope = 0; wait = WaitKind.scope 1 })
      ∷ (1, record { node = 4; scope = 1; wait = WaitKind.work_item 0 })
      ∷ [];
  scopes = (1, record { element = 1; parent = 0; token = 0 }) ∷ [];
}

inside-IsNested : IsNested inside
inside-IsNested = record { parent_is_older = λ k e h. ground arith }

inside-Walk : Walk inside 1 ((0, 1) ∷ [])
inside-Walk = enclosed {e = record { element = 1; parent = 0; token = 0 }} refl (outermost refl)

catcher-Catches_example :
    ((target : ℕ) (b : ℕ)
      → (catcher claims inside 4 1 1 (some "FRAUD") ≡ some (target, b))
        ↔ Catches claims (some "FRAUD") ((1, 4) ∷ (0, 1) ∷ []) target b)
    × ((catcher claims inside 4 1 1 (some "FRAUD") ≡ none)
        ↔ NoneCatches claims (some "FRAUD") ((1, 4) ∷ (0, 1) ∷ []))
catcher-Catches_example =
    catcher-Catches claims (some "FRAUD") inside 4 1 1 ((0, 1) ∷ []) inside-IsNested inside-Walk

outward-Walk_example :
    (hosts : List (ℕ × ℕ)) × (Walk inside 1 hosts × (outward inside 4 1 1 ≡ (1, 4) ∷ hosts))
outward-Walk_example = outward-Walk inside 4 1 1 inside-IsNested

inside-AreScopes : AreScopes inside.scopes
inside-AreScopes = record {
  one_entry = λ k. ground arith;
  older = λ k e m. elim (Among-cons m) [
    | inl q ↦
        let key : k ≡ 1 = ap (λ x. x.0) q in
        let parent : e.parent ≡ 0 = ap (λ x. x.1.parent) q in omega (arith, key, parent)
    | inr n ↦ nowhere n
  ];
}

-- The host's token is left, outside the subprocess.
tear_down_scope-empties_example : ¬ Inside inside 1 0
unfolding runs
tear_down_scope-empties_example =
    tear_down_scope-empties claims 1 (new inside) 0
      (record { node = 1; scope = 0; wait = WaitKind.scope 1 }) inside-AreScopes refl

-- What is in the root is not inside that subprocess.
inside-IsOutside : (s : InstanceState) → s.scopes ≡ inside.scopes → IsOutside (some 1) s 0
unfolding runs
inside-IsOutside s e =
    IsOutside-same (some 1) inside s 0 e
      (λ q h. subst (λ x. contains (scope_subtree inside x) 0 ≡ false) (some-injective 1 q h) refl)

-- A move of one more token in flight beside it.
abbrev beside : Advancer
beside = push_move (record { token = 7; node = 2; via = some 1; scope = 0 }) (new inside)

resume_halted-freeze_example :
    Among
      (record { token = 7; node = 2; via = some 1; scope = 0 })
      (resume_halted claims (freeze claims 0 1 none none beside)).queue
unfolding IsDistinct
resume_halted-freeze_example =
    resume_halted-freeze claims 0 1 none none beside (freeze claims 0 1 none none beside)
      (record { token = 7; node = 2; via = some 1; scope = 0 }) (inside-IsOutside inside refl)
      (refl, tt) first refl

-- The claim with a decision pending beside the subprocess.
abbrev asking : InstanceState
asking = record inside {
  tokens =
      (0, record { node = 1; scope = 0; wait = WaitKind.scope 1 })
      ∷ (3, record { node = 2; scope = 0; wait = WaitKind.decision })
      ∷ [];
}

asking-IsSole : IsSole 3 (record { node = 2; scope = 0; wait = WaitKind.decision }) asking.tokens
asking-IsSole = (
  refl,
  λ x m. elim (Among-cons m) [
    | inl e ↦ let k : ◌≡◌ {A = ℕ} 3 0 = ap (λ y. y.0) e in absurd (omega (arith, k))
    | inr n ↦ elim (Among-cons n) [ inl e ↦ ap (λ y. y.1) e | inr l ↦ nowhere l ]
  ],
)

resume_halted-asks_example :
    Among 3 (resume_halted claims (freeze claims 0 1 none none (new asking))).reask
resume_halted-asks_example =
    resume_halted-asks claims 0 1 none none (new asking) (freeze claims 0 1 none none (new asking))
      3 (record { node = 2; scope = 0; wait = WaitKind.decision }) (inside-IsOutside asking refl)
      refl refl asking-IsSole refl

-- The same instance, its decision halted and to be asked for again.
abbrev reasking : Advancer
reasking =
    record (new (record asking {
      tokens = (3, record { node = 2; scope = 0; wait = WaitKind.halted awaiting_decision }) ∷ [];
    })) { reask = 3 ∷ [] }

settle_decisions-decides_example :
    get_entry 3 (settle_decisions plain order reasking).state.tokens
    ≡ some (record { node = 2; scope = 0; wait = WaitKind.decision })
settle_decisions-decides_example =
    settle_decisions-decides plain order reasking 3
      (record { node = 2; scope = 0; wait = WaitKind.halted awaiting_decision }) refl refl refl
