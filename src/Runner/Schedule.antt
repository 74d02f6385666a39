-- ===== src/Runner/Schedule.antt =====
-- What `Run.execute` of experiments/isolation/runner.py derives from the specification: the number
-- of instances and the limits, and the times of the fault and scenario steps.
pub mod InTime
use event_driven_order_syste.Base.{
  ℕ, ◌+◌, ◌*◌, max, String, Bool, true, false, Option, none, some, List, [], ◌∷◌, ◌++◌, map,
  string_eq, if◌then◌else◌,
}
use event_driven_order_syste.Base.Dict.{Dict, lookup}
use event_driven_order_syste.Base.Opt.{◌>>=◌}
use event_driven_order_syste.RunCheck.Run.{Limits}
use event_driven_order_syste.Suite.Specs.{
  Spec, Scenario, scale_out, stale_owner, observer_pause, observer_off, RatedPhase,
}
use event_driven_order_syste.Workload.{phase_bounds}

abbrev pub or_one : Option ℕ → ℕ
or_one none = 1
or_one (some n) = n

abbrev pub least_instances : Option Scenario → ℕ
least_instances (some scale_out) = 2
least_instances _ = 1

-- `max(partners_at_start, 2 if spec.get('scenario') == 'scale' else 1)`
unfoldable pub instances : Spec → ℕ
instances spec = max (or_one spec.partners_at_start) (least_instances spec.scenario)

unfoldable pub limits : Spec → Limits
unfolding instances
limits spec = record { global = 4 * instances spec; seller = 2; retry_per_second = 2 }

abbrev pub plain : RatedPhase → event_driven_order_syste.Workload.Phase
plain p = record { name = p.name; seconds = p.seconds }

unfoldable pub bounds_of : List RatedPhase → Dict String (ℕ × ℕ)
unfolding phase_bounds
bounds_of phases = phase_bounds (map plain phases)

-- The steps of `_at`.
pub data Step : Type 0 where
  inject_fault remove_fault scale hold_owner pause_signal observer_pauses observer_resumes : Step

abbrev pub Timed : Type 0
Timed = ℕ × Step

-- `bounds[name]`: `none` is a KeyError, with which the run goes on to collect its files.
abbrev pub bound_of : List RatedPhase → Option String → Option (ℕ × ℕ)
bound_of phases none = none
bound_of phases (some name) = lookup name (bounds_of phases)

unfoldable pub fault_steps : Spec → (start_at : ℕ) → Option (List Timed)
fault_steps spec start_at = elim spec.fault [
  | none ↦ some []
  | some name ↦ do
    (begin, end) ← bound_of spec.phases (some name)
    some ((start_at + begin, inject_fault) ∷ (start_at + end, remove_fault) ∷ [])
]

unfoldable pub window_steps : Spec → (start_at : ℕ) → List (String × Bool) → Option (List Timed)
window_steps spec start_at [] = some []
window_steps spec start_at ((name, off) ∷ windows) = do
  (b, e) ← bound_of spec.phases (some name)
  rest ← window_steps spec start_at windows
  some (
      if off
      then (start_at + b, observer_pauses) ∷ (start_at + e, observer_resumes) ∷ rest
      else rest)

unfoldable pub scenario_steps : Spec → (start_at : ℕ) → Option (List Timed)
unfolding window_steps
scenario_steps spec start_at = elim spec.scenario [
  | none ↦ some []
  | some scenario ↦ do
    (begin, end) ← bound_of spec.phases spec.scenario_phase
    elim scenario [
      | scale_out ↦ some ((start_at + begin + 30000, scale) ∷ [])
      | stale_owner ↦ some ((start_at + begin, hold_owner) ∷ [])
      | observer_pause ↦ some ((start_at + begin + 30000, pause_signal) ∷ [])
      | observer_off windows ↦ window_steps spec start_at windows
    ]
]

unfoldable pub schedule : Spec → (start_at : ℕ) → Option (List Timed)
unfolding fault_steps scenario_steps
schedule spec start_at = do
  fault ← fault_steps spec start_at
  scenario ← scenario_steps spec start_at
  some (fault ++ scenario)

-- `_at`: the thread of a step sleeps until its time, or acts at once when that has passed.
abbrev pub acts_at : (epoch_ms now : ℕ) → ℕ
acts_at epoch_ms now = max epoch_ms now
