-- ===== src/Suite/Specs/Phases.antt =====
-- The specifications of experiments/isolation/suite.py name their own phases and fit in the
-- minutes that are reserved for them.
use event_driven_order_syste.Base.{
  ℕ, ◌+◌, ◌*◌, ◌≤◌, ◌≡◌, refl, String, Bool, true, false, Option, none, some, List, [], ◌∷◌, ◌==◌,
  string_eq, arith, if◌then◌else◌,
}
use event_driven_order_syste.Base.Lists.{All}
use event_driven_order_syste.Suite.Specs.{
  Candidate, Condition, scale, stale, RatedPhase, Spec, e1_spec, r1_spec, e3_spec, e4_spec, c0_spec,
}

-- `bounds[name]` does not raise for a name of these.
abbrev pub names_phase : List RatedPhase → String → Bool
names_phase [] name = false
names_phase (p ∷ ps) name = if p.name == name then true else names_phase ps name

abbrev pub IsNamed : List RatedPhase → Option String → Type 0
IsNamed phases none = Unit
IsNamed phases (some name) = names_phase phases name ≡ true

abbrev pub total_seconds : List RatedPhase → ℕ
total_seconds [] = 0
total_seconds (p ∷ ps) = p.seconds + total_seconds ps

-- A specification that can run in the minutes reserved for it.
pub record IsRunnable (minutes : ℕ) (spec : Spec) : Type 0 where
  pub fault_named : IsNamed spec.phases spec.fault
  pub scenario_named : IsNamed spec.phases spec.scenario_phase
  pub judged_named : All (λ name. names_phase spec.phases name ≡ true) spec.judged_phases
  pub fits : total_seconds spec.phases + spec.drain_seconds ≤ 60 * minutes

-- The minutes of `MINUTES`, and 16 for the long faults of r1, cover the phases and the longest
-- drain of every specification, and each names only phases of its own, at every seed, rate,
-- candidate, backlog limit and label.
pub specs-IsRunnable :
    (candidate : Candidate) (seed rate backlog : ℕ) (label : String) (condition : Condition)
    → IsRunnable 9 (e1_spec candidate seed rate backlog label)
      × IsRunnable 9 (r1_spec candidate seed rate 180)
      × IsRunnable 16 (r1_spec candidate seed rate 600)
      × IsRunnable 6 (e3_spec candidate seed rate condition)
      × IsRunnable 6 (e4_spec candidate seed rate)
      × IsRunnable 6 (c0_spec candidate seed)
unfolding e1_spec r1_spec e3_spec e4_spec c0_spec
specs-IsRunnable candidate seed rate backlog label scale = (
  record {
    fault_named = refl;
    scenario_named = tt;
    judged_named = (refl, (refl, tt));
    fits = omega arith;
  },
  record {
    fault_named = refl;
    scenario_named = tt;
    judged_named = (refl, (refl, tt));
    fits = omega arith;
  },
  record {
    fault_named = refl;
    scenario_named = tt;
    judged_named = (refl, (refl, tt));
    fits = omega arith;
  },
  record {
    fault_named = refl;
    scenario_named = refl;
    judged_named = (refl, tt);
    fits = omega arith;
  },
  record {
    fault_named = refl;
    scenario_named = refl;
    judged_named = (refl, (refl, tt));
    fits = omega arith;
  },
  record { fault_named = tt; scenario_named = tt; judged_named = tt; fits = omega arith },
)
specs-IsRunnable candidate seed rate backlog label stale = (
  record {
    fault_named = refl;
    scenario_named = tt;
    judged_named = (refl, (refl, tt));
    fits = omega arith;
  },
  record {
    fault_named = refl;
    scenario_named = tt;
    judged_named = (refl, (refl, tt));
    fits = omega arith;
  },
  record {
    fault_named = refl;
    scenario_named = tt;
    judged_named = (refl, (refl, tt));
    fits = omega arith;
  },
  record { fault_named = tt; scenario_named = refl; judged_named = (refl, tt); fits = omega arith },
  record {
    fault_named = refl;
    scenario_named = refl;
    judged_named = (refl, (refl, tt));
    fits = omega arith;
  },
  record { fault_named = tt; scenario_named = tt; judged_named = tt; fits = omega arith },
)
