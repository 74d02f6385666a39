-- ===== src/Suite/Plan/Kept.antt =====
-- The whole plan (`all` of experiments/isolation/suite.py) keeps to its deadline.
use event_driven_order_syste.Base.{
  ℕ, ◌+◌, ◌≡◌, ◌≤◌, Bool, true, false, ◌&&◌, Option, some, List, [], ◌∷◌, if◌then◌else◌, inl, inr,
  Bool-cases, Option-cases,
}
use event_driven_order_syste.Suite.Specs.{
  all_candidates, Candidate, kafka_retry, scale, Spec, c0_spec,
}
use event_driven_order_syste.Suite.Specs.Phases.{specs-IsRunnable}
use event_driven_order_syste.Suite.Budget.{State, g0_result, note, run, run_all}
use event_driven_order_syste.Suite.Budget.Deadline.{FitsIn, run_in_time, run_all_in_time}
use event_driven_order_syste.Suite.Plan.Fits.{
  All-when, TakesPlannedTime, job-FitsIn, e1_jobs-Fits, extra_jobs-Fits, later_jobs-Fits,
}
use event_driven_order_syste.Suite.Rate.{Step, c0_job, c0_runs, c0, is_stable}
use event_driven_order_syste.Suite.Pick.{Floats, Checks, pick}
use event_driven_order_syste.Suite.Plan.{
  Stages, when, or_80, Cell, e1_jobs, extra_jobs, later_jobs, later_stages, e1_and_later, after_g0,
  all, results_of, has_time_for_extra,
}

if_in_time :
    (latest : ℕ) (b : Bool) (x y : Bool × State)
    → x.1.now ≤ latest
    → y.1.now ≤ latest
    → (if b then x else y).1.now ≤ latest
if_in_time latest true x y h k = h
if_in_time latest false x y h k = k

module _ {R : Type 0} (execute : Spec → ℕ → ℕ × R) (deadline slack : ℕ)
    (h : TakesPlannedTime execute deadline slack) where
  c0_runs_in_time :
      (step_of : R → Option Step) (order : List Candidate) (s : State)
      → s.now ≤ deadline + slack
      → (c0_runs execute deadline step_of order s).1.now ≤ deadline + slack
  unfolding c0_runs
  c0_runs_in_time step_of [] s k = k
  c0_runs_in_time step_of (c ∷ cs) s k =
      let first =
        run_in_time execute deadline slack (c0_job execute deadline step_of c) s
          (job-FitsIn execute deadline slack h 6 (c0_spec c 1250)
            (specs-IsRunnable c 1250 0 0 "" scale).5)
          k in
      elim (Option-cases (
        is_stable execute deadline step_of
          (run execute deadline (c0_job execute deadline step_of c) s).0)) [
            | inl e ↦ rw (c0_runs, e) first
            | inr e ↦ rw (c0_runs, e.1) (c0_runs_in_time step_of cs _ first)
          ]

  c0_in_time :
      (step_of : R → Option Step) (order : List Candidate) (s : State)
      → s.now ≤ deadline + slack
      → (c0 execute deadline step_of order s).1.now ≤ deadline + slack
  unfolding c0
  c0_in_time step_of order s k =
      let runs = c0_runs_in_time step_of order s k in
      elim (Option-cases (c0_runs execute deadline step_of order s).0) [
        | inl e ↦ rw (c0, e) runs
        | inr e ↦ rw (c0, e.1) runs
      ]

  module _ (shuffle : ℕ → List Candidate → List Candidate)
      (shuffle_cells : ℕ → List Cell → List Cell) (step_of : R → Option Step)
      (checks_of : R → Option Checks) (floats : Floats) where
    later_in_time :
        (stages : Stages) (best final : Candidate) (rate : ℕ) (s : State)
        → s.now ≤ deadline + slack
        → (later_stages shuffle shuffle_cells execute deadline step_of checks_of floats stages best
            final rate s).now
          ≤ deadline + slack
    unfolding later_stages
    later_in_time stages best final rate s k =
        let jobs = later_jobs shuffle shuffle_cells stages best final rate in
        let s₁ = (run_all execute deadline jobs s).1 in
        let k₁ =
          run_all_in_time execute deadline slack jobs s
            (later_jobs-Fits execute deadline slack h shuffle shuffle_cells stages best final rate)
            k in
        let extra = extra_jobs shuffle shuffle_cells best rate in
        let more =
          stages.e1
          && has_time_for_extra shuffle shuffle_cells execute deadline step_of checks_of floats
              s₁ in
        run_all_in_time execute deadline slack (when more extra) s₁
          (All-when (FitsIn execute deadline slack) more extra
            (extra_jobs-Fits execute deadline slack h shuffle shuffle_cells best rate))
          k₁

    e1_in_time :
        (stages : Stages) (rate : ℕ) (s : State)
        → s.now ≤ deadline + slack
        → (e1_and_later shuffle shuffle_cells execute deadline step_of checks_of floats stages rate
            s).1.now
          ≤ deadline + slack
    unfolding e1_and_later
    e1_in_time stages rate s k =
        let jobs = e1_jobs shuffle shuffle_cells rate in
        let (rs, s₁) = run_all execute deadline jobs s in
        let k₁ =
          run_all_in_time execute deadline slack jobs s
            (e1_jobs-Fits execute deadline slack h shuffle shuffle_cells rate) k in
        if_in_time (deadline + slack) stages.e1 _ _
          (elim (Option-cases (
            pick floats (
              results_of shuffle shuffle_cells execute deadline step_of checks_of floats jobs
                rs))) [
                  | inl f ↦ rw f k₁
                  | inr f ↦ rw (f.1) (later_in_time stages f.0.0 f.0.1 rate _ k₁)
                ])
          (later_in_time stages kafka_retry kafka_retry rate s k)

    after_g0_in_time :
        (stages : Stages) (given : Option ℕ) (s : State)
        → s.now ≤ deadline + slack
        → (after_g0 shuffle shuffle_cells execute deadline step_of checks_of floats stages given
            s).1.now
          ≤ deadline + slack
    unfolding after_g0
    after_g0_in_time stages given s k =
        let order = shuffle 1250 all_candidates in
        let k' = c0_in_time step_of order s k in
        elim (Bool-cases stages.c0) [
          | inl e ↦ elim (Option-cases (c0 execute deadline step_of order s).0) [
            | inl f ↦ rw (e, f) k'
            | inr f ↦ rw (e, f.1) (e1_in_time stages (or_80 (some f.0)) _ k')
          ]
          | inr e ↦ rw e (e1_in_time stages (or_80 given) s k)
        ]

    -- Whatever stages are selected and whatever the runs leave, when a run takes at most its
    -- phases, its longest drain, one minute and `slack` seconds, and the suite begins, and the
    -- instrument checks end when they are selected, at most `slack` seconds after the deadline,
    -- the suite ends at most `slack` seconds after the deadline: late runs do not add up.
    pub all_in_time :
        (g0 : State → Bool × State) (stages : Stages) (given : Option ℕ) (s : State)
        → (stages.g0 ≡ true → (g0 s).1.now ≤ deadline + slack)
        → s.now ≤ deadline + slack
        → (all shuffle shuffle_cells execute deadline step_of checks_of floats g0 stages given
            s).1.now
          ≤ deadline + slack
    unfolding all
    all_in_time g0 stages given s instruments k = elim (Bool-cases stages.g0) [
      | inl e ↦
          let k' = instruments e in
          rw e (
            if_in_time (deadline + slack) (g0 s).0 _ _
              (after_g0_in_time stages given (note (g0_result (g0 s).0) (g0 s).1) k') k')
      | inr e ↦ rw e (after_g0_in_time stages given s k)
    ]
