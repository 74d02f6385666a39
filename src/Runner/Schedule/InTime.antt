-- ===== src/Runner/Schedule/InTime.antt =====
-- The steps that `Run.execute` (experiments/isolation/runner.py) plans lie within the load.
use event_driven_order_syste.Base.{
  ℕ, ◌+◌, ◌*◌, ◌≤◌, ◌≡◌, refl, sym, ap, ◌⊎◌, inl, inr, ◌∙◌, String, Bool, true, false, Option, none,
  some, List, [], ◌∷◌, ◌++◌, map, ◌==◌, string_eq, arith, if◌then◌else◌, Bool-cases, Option-cases,
  subst,
}
use event_driven_order_syste.Base.Dict.{Dict, lookup, insert, lookup-insert}
use event_driven_order_syste.Base.Lists.{All}
use event_driven_order_syste.Suite.Specs.{
  Spec, Scenario, scale_out, stale_owner, observer_pause, observer_off, RatedPhase,
}
use event_driven_order_syste.Suite.Specs.Phases.{names_phase, total_seconds, IsNamed}
use event_driven_order_syste.Workload.{bounds_from, phase_bounds}
use event_driven_order_syste.Runner.Schedule.{
  inject_fault, remove_fault, Timed, plain, bounds_of, fault_steps, window_steps, scenario_steps,
  schedule,
}

-- An entry of the bounds that begins before it ends, and ends by `cap`.
abbrev IsWithin : (cap : ℕ) → String → Dict String (ℕ × ℕ) → Type 0
IsWithin cap name d = (b : ℕ) × (e : ℕ) × (lookup name d ≡ some (b, e)) × (b ≤ e) × (e ≤ cap)

bounds_from-IsWithin :
    (phases : List RatedPhase) (start cap : ℕ) (name : String) (d : Dict String (ℕ × ℕ))
    → (start + total_seconds phases) * 1000 ≤ cap
    → IsWithin cap name d ⊎ (names_phase phases name ≡ true)
    → IsWithin cap name (bounds_from (map plain phases) start d)
unfolding bounds_from
bounds_from-IsWithin [] start cap name d fits h = elim h [ inl k ↦ k | inr k ↦ absurd (cc k) ]
bounds_from-IsWithin (p ∷ ps) start cap name d fits h =
    let v : ℕ × ℕ = (start * 1000, (start + p.seconds) * 1000) in
    let look = lookup-insert p.name name v d in
    bounds_from-IsWithin ps (start + p.seconds) cap name (insert p.name v d) (omega arith)
      (elim (Bool-cases (p.name == name)) [
        | inl e ↦ inl (v.0, v.1, look ∙ rw e refl, omega arith, omega arith)
        | inr e ↦ elim h [
          | inl k ↦ inl (k.0, k.1, look ∙ rw e k.2, k.3, k.4)
          | inr k ↦ inr (sym (ap (λ b. if b then true else names_phase ps name) e) ∙ k)
        ]
      ])

bound_of-IsWithin :
    (spec : Spec) (name : String)
    → names_phase spec.phases name ≡ true
    → IsWithin (total_seconds spec.phases * 1000) name (bounds_of spec.phases)
unfolding bounds_of phase_bounds
bound_of-IsWithin spec name h =
    bounds_from-IsWithin spec.phases 0 (total_seconds spec.phases * 1000) name [] (omega arith)
      (inr h)

-- Between the start of the load and 30 s after its planned end.
abbrev pub InLoad : Spec → (start_at : ℕ) → Timed → Type 0
InLoad spec start_at (t, step) =
    (start_at ≤ t) × (t ≤ start_at + total_seconds spec.phases * 1000 + 30000)

-- The fault is injected and then removed, or there is none.
abbrev pub FaultInOrder : Spec → List Timed → Type 0
FaultInOrder spec steps = elim spec.fault [
  | none ↦ steps ≡ []
  | some name ↦ (b : ℕ) × (e : ℕ) × (b ≤ e) × (steps ≡ (b, inject_fault) ∷ (e, remove_fault) ∷ [])
]

fault_steps-some :
    (spec : Spec) (start_at : ℕ)
    → IsNamed spec.phases spec.fault
    → (steps : List Timed) × (fault_steps spec start_at ≡ some steps)
      × All (InLoad spec start_at) steps
      × FaultInOrder spec steps
unfolding fault_steps
fault_steps-some spec start_at named = elim (Option-cases spec.fault) [
  | inl e ↦ rw (fault_steps, e) ([], refl, tt, refl)
  | inr e ↦
      let (b, end, look, ordered, within) =
        bound_of-IsWithin spec e.0 (subst (IsNamed spec.phases) e.1 named) in
      rw (fault_steps, e.1, look)
        (
          (start_at + b, inject_fault) ∷ (start_at + end, remove_fault) ∷ [],
          refl,
          ((omega arith, omega arith), ((omega arith, omega arith), tt)),
          (start_at + b, start_at + end, omega arith, refl),
        )
]

-- The phases that a scenario names are phases of the run.
abbrev pub ScenarioNamed : List RatedPhase → Option Scenario → Option String → Type 0
ScenarioNamed phases none name = Unit
ScenarioNamed phases (some scenario) none = true ≡ false
ScenarioNamed phases (some (observer_off windows)) (some name) =
    (names_phase phases name ≡ true)
    × All (λ (w : String × Bool). names_phase phases w.0 ≡ true) windows
ScenarioNamed phases (some _) (some name) = names_phase phases name ≡ true

window_steps-some :
    (spec : Spec) (start_at : ℕ) (windows : List (String × Bool))
    → All (λ (w : String × Bool). names_phase spec.phases w.0 ≡ true) windows
    → (steps : List Timed) × (window_steps spec start_at windows ≡ some steps)
      × All (InLoad spec start_at) steps
unfolding window_steps
window_steps-some spec start_at [] h = ([], refl, tt)
window_steps-some spec start_at ((name, off) ∷ windows) h =
    let (b, end, look, ordered, within) = bound_of-IsWithin spec name h.0 in
    let (rest, e, k) = window_steps-some spec start_at windows h.1 in
    elim (Bool-cases off) [
      | inl o ↦
          rw (window_steps, look, e, o)
            (_, refl, ((omega arith, omega arith), ((omega arith, omega arith), k)))
      | inr o ↦ rw (window_steps, look, e, o) (rest, refl, k)
    ]

abbrev PlannedScenario : Spec → (start_at : ℕ) → Type 0
PlannedScenario spec start_at =
    (steps : List Timed) × (scenario_steps spec start_at ≡ some steps)
    × All (InLoad spec start_at) steps

one_step :
    (spec : Spec) (start_at : ℕ) (scenario : Option Scenario) (name : Option String)
    → spec.scenario ≡ scenario
    → spec.scenario_phase ≡ name
    → ScenarioNamed spec.phases scenario name
    → PlannedScenario spec start_at
unfolding scenario_steps
one_step spec start_at none name e f h = rw (scenario_steps, e) ([], refl, tt)
one_step spec start_at (some scenario) none e f h = absurd (cc h)
one_step spec start_at (some scale_out) (some name) e f h =
    let (b, end, look, ordered, within) = bound_of-IsWithin spec name h in
    rw (scenario_steps, e, f, look) (_, refl, ((omega arith, omega arith), tt))
one_step spec start_at (some stale_owner) (some name) e f h =
    let (b, end, look, ordered, within) = bound_of-IsWithin spec name h in
    rw (scenario_steps, e, f, look) (_, refl, ((omega arith, omega arith), tt))
one_step spec start_at (some observer_pause) (some name) e f h =
    let (b, end, look, ordered, within) = bound_of-IsWithin spec name h in
    rw (scenario_steps, e, f, look) (_, refl, ((omega arith, omega arith), tt))
one_step spec start_at (some (observer_off windows)) (some name) e f h =
    let (b, end, look, ordered, within) = bound_of-IsWithin spec name h.0 in
    let (steps, g, k) = window_steps-some spec start_at windows h.1 in
    rw (scenario_steps, e, f, look, g) (steps, refl, k)

All-append_steps :
    (spec : Spec) (start_at : ℕ) (xs ys : List Timed)
    → All (InLoad spec start_at) xs
    → All (InLoad spec start_at) ys
    → All (InLoad spec start_at) (xs ++ ys)
All-append_steps spec start_at [] ys h k = k
All-append_steps spec start_at (x ∷ xs) ys h k = (h.0, All-append_steps spec start_at xs ys h.1 k)

-- When a specification names only phases of its own for the fault and the scenario, the run plans
-- its steps without an exception: the fault is removed after it is injected, and every step is
-- between the start of the load and 30 s after its planned end.
pub schedule-some :
    (spec : Spec) (start_at : ℕ)
    → IsNamed spec.phases spec.fault
    → ScenarioNamed spec.phases spec.scenario spec.scenario_phase
    → (fault scenario : List Timed) × (schedule spec start_at ≡ some (fault ++ scenario))
      × FaultInOrder spec fault
      × All (InLoad spec start_at) (fault ++ scenario)
unfolding schedule
schedule-some spec start_at fault_named scenario_named =
    let (fault, e, within, ordered) = fault_steps-some spec start_at fault_named in
    let (scenario, f, within') =
      one_step spec start_at spec.scenario spec.scenario_phase refl refl scenario_named in
    (
      fault,
      scenario,
      rw (e, f) refl,
      ordered,
      All-append_steps spec start_at fault scenario within within',
    )
