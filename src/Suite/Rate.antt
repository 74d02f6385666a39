-- ===== src/Suite/Rate.antt =====
-- The input rate of the suite (`stable_at_80` and `c0` of experiments/isolation/suite.py).
pub mod Stable
use event_driven_order_syste.Base.{
  ℕ, ◌+◌, ◌*◌, Bool, true, false, Option, none, some, List, [], ◌∷◌, ltb, leb, ◌&&◌, if◌then◌else◌,
}
use event_driven_order_syste.Base.Int.{ℤ, ◌-ℤ◌, sub_ℕ, pos_part}
use event_driven_order_syste.Base.Lists.{count_if, all}
use event_driven_order_syste.Base.Opt.{◌>>=◌}
use event_driven_order_syste.Suite.Specs.{Candidate, Spec, c0_spec}
use event_driven_order_syste.Suite.Budget.{Job, State, Note, c0_result, note, run}

-- The last 30 s of the step of 80 events per second, with `created_at` of the obligations and
-- `effect_at` of the seller's effects.
pub record Step : Type 0 where
  pub t1 : ℕ
  pub t2 : ℕ
  pub created : List ℕ
  pub done : List ℕ

abbrev pub in_step : (t1 t2 t : ℕ) → Bool
in_step t1 t2 t = leb t1 t && ltb t t2

abbrev pub before : ℕ → List ℕ → ℕ
before t = count_if (λ c. ltb c t)

unfoldable pub backlog : Step → ℕ → ℤ
backlog s t = sub_ℕ (before t s.created) (before t s.done)

unfoldable pub growth : Step → ℤ
unfolding backlog ◌-ℤ◌
growth s = backlog s s.t2 -ℤ backlog s s.t1

unfoldable pub arrived : Step → ℕ
arrived s = count_if (in_step s.t1 s.t2) s.created

unfoldable pub completed : Step → ℕ
completed s = count_if (in_step s.t1 s.t2) s.done

-- `0.95 * arrived` and `0.05 * arrived` round to the whole number that they are near, so that the
-- comparisons of whole numbers are those of percents.
unfoldable pub stable_at_80 : Step → Bool
unfolding growth arrived completed
stable_at_80 s =
    ltb 0 (arrived s)
    && leb (95 * arrived s) (100 * completed s)
    && leb (100 * pos_part (growth s)) (5 * arrived s)

-- `step_of` reads the files of a run: `none` when one is missing or has no such step, and the
-- exception ends the suite. `order` is the shuffled list of the candidates.
module _ {R : Type 0} (execute : Spec → ℕ → ℕ × R) (deadline : ℕ) (step_of : R → Option Step) where
  abbrev pub c0_job : Candidate → Job
  c0_job c = record { spec = c0_spec c 1250; minutes = 6 }

  unfoldable pub is_stable : Option R → Option Bool
  unfolding stable_at_80
  is_stable none = some false
  is_stable (some files) = step_of files >>= λ s. some (stable_at_80 s)

  unfoldable pub c0_runs : List Candidate → State → Option (List Bool) × State
  unfolding run is_stable
  c0_runs [] s = (some [], s)
  c0_runs (c ∷ cs) s =
      let (result, s') = run execute deadline (c0_job c) s in
      let (flags, last) = c0_runs cs s' in
      elim (is_stable result) [
        | none ↦ (none, s')
        | some flag ↦ (flags >>= λ rest. some (flag ∷ rest), last)
      ]

  unfoldable pub c0 : List Candidate → State → Option ℕ × State
  unfolding c0_runs
  c0 order s =
      let (flags, s') = c0_runs order s in
      elim flags [
        | none ↦ (none, s')
        | some stable ↦
            let rate = if all (λ b. b) stable then 80 else 40 in
            (some rate, note (c0_result rate) s')
      ]
