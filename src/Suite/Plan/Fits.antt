-- ===== src/Suite/Plan/Fits.antt =====
-- The runs of the plan (`all` of experiments/isolation/suite.py) fit in their reserved minutes.
use event_driven_order_syste.Base.{ℕ, ◌+◌, ◌≤◌, Bool, true, false, List, [], ◌∷◌, ◌++◌, map, arith}
use event_driven_order_syste.Base.Lists.{All}
use event_driven_order_syste.Suite.Specs.{
  all_candidates, Candidate, kafka_retry, db_inbox, scale, Spec, e1_spec, r1_spec, e3_spec, e4_spec,
}
use event_driven_order_syste.Suite.Specs.Phases.{IsRunnable, total_seconds, specs-IsRunnable}
use event_driven_order_syste.Suite.Budget.{Job}
use event_driven_order_syste.Suite.Budget.Deadline.{FitsIn}
use event_driven_order_syste.Suite.Plan.{
  Stages, seeds, extra_seeds, each_of, job, when, Cell, cells, e1_jobs, e2_jobs, e3_jobs, e4_jobs,
  r1_jobs, r1long_jobs, extra_jobs, later_jobs,
}

module _ {A : Type 0} (P : A → Type 0) where
  All-append : (xs ys : List A) → All P xs → All P ys → All P (xs ++ ys)
  All-append [] ys h k = k
  All-append (x ∷ xs) ys h k = (h.0, All-append xs ys h.1 k)

  pub All-when : (b : Bool) (xs : List A) → All P xs → All P (when b xs)
  All-when true xs h = h
  All-when false xs h = tt

module _ {R : Type 0} (execute : Spec → ℕ → ℕ × R) (deadline slack : ℕ) where
  -- A run takes at most its phases, its longest drain, one minute, and `slack` seconds more: the
  -- waits of the runner for its services are not in the plan.
  abbrev pub TakesPlannedTime : Type 0
  TakesPlannedTime =
      (spec : Spec) (now : ℕ)
      → (execute spec now).0 ≤ total_seconds spec.phases + spec.drain_seconds + 60 + slack

  abbrev Fits : Job → Type 0
  Fits = FitsIn execute deadline slack

  pub job-FitsIn :
      TakesPlannedTime
      → (minutes : ℕ) (spec : Spec) → IsRunnable minutes spec
      → Fits (job minutes spec)
  job-FitsIn h minutes spec runnable now = omega (arith, h spec now, runnable.fits)

  module _ (h : TakesPlannedTime) where
    stage-Fits :
        {X : Type 0} (minutes : ℕ) (spec_of : X → Spec) (xs : List X)
        → ((x : X) → IsRunnable minutes (spec_of x))
        → All Fits (map (λ x. job minutes (spec_of x)) xs)
    stage-Fits minutes spec_of [] runnable = tt
    stage-Fits minutes spec_of (x ∷ xs) runnable =
        (job-FitsIn h minutes (spec_of x) (runnable x), stage-Fits minutes spec_of xs runnable)

    stages_fit :
        {X : Type 0} (minutes : ℕ) (spec_of : ℕ → X → Spec) (order : ℕ → List X) (ns : List ℕ)
        → ((n : ℕ) (x : X) → IsRunnable minutes (spec_of n x))
        → All Fits (each_of (λ n. map (λ x. job minutes (spec_of n x)) (order n)) ns)
    stages_fit minutes spec_of order [] runnable = tt
    stages_fit minutes spec_of order (n ∷ ns) runnable =
        All-append Fits (map (λ x. job minutes (spec_of n x)) (order n)) _
          (stage-Fits minutes (spec_of n) (order n) (runnable n))
          (stages_fit minutes spec_of order ns runnable)

    module _ (shuffle : ℕ → List Candidate → List Candidate)
        (shuffle_cells : ℕ → List Cell → List Cell) where
      pub e1_jobs-Fits : (rate : ℕ) → All Fits (e1_jobs shuffle shuffle_cells rate)
      unfolding e1_jobs
      e1_jobs-Fits rate =
          stages_fit 9 (λ seed c. e1_spec c seed rate 200 "e1")
            (λ seed. shuffle seed all_candidates) seeds
            (λ seed c. (specs-IsRunnable c seed rate 200 "e1" scale).0)

      pub extra_jobs-Fits :
          (best : Candidate) (rate : ℕ) → All Fits (extra_jobs shuffle shuffle_cells best rate)
      unfolding extra_jobs
      extra_jobs-Fits best rate =
          stages_fit 9 (λ seed c. e1_spec c seed rate 200 "e1x")
            (λ seed. shuffle seed (db_inbox ∷ best ∷ [])) extra_seeds
            (λ seed c. (specs-IsRunnable c seed rate 200 "e1x" scale).0)

      e2_jobs-Fits : (rate : ℕ) → All Fits (e2_jobs shuffle shuffle_cells rate)
      unfolding e2_jobs
      e2_jobs-Fits rate =
          stage-Fits 9 (λ seed. e1_spec db_inbox seed rate 2000 "e2") seeds
            (λ seed. (specs-IsRunnable db_inbox seed rate 2000 "e2" scale).0)

      e3_jobs-Fits :
          (best : Candidate) (rate : ℕ) → All Fits (e3_jobs shuffle shuffle_cells best rate)
      unfolding e3_jobs
      e3_jobs-Fits best rate =
          stages_fit 6 (λ seed (cell : Cell). e3_spec cell.0 seed rate cell.1)
            (λ seed. shuffle_cells (seed + 30) (cells best)) seeds
            (λ seed (cell : Cell). (specs-IsRunnable cell.0 seed rate 200 "" cell.1).3)

      e4_jobs-Fits :
          (final : Candidate) (rate : ℕ) → All Fits (e4_jobs shuffle shuffle_cells final rate)
      unfolding e4_jobs
      e4_jobs-Fits final rate =
          stage-Fits 6 (λ seed. e4_spec final seed rate) seeds
            (λ seed. (specs-IsRunnable final seed rate 200 "" scale).4)

      r1_jobs-Fits : (rate : ℕ) → All Fits (r1_jobs shuffle shuffle_cells rate)
      unfolding r1_jobs
      r1_jobs-Fits rate =
          stages_fit 9 (λ seed c. r1_spec c seed rate 180)
            (λ seed. shuffle (seed + 50) all_candidates) seeds
            (λ seed c. (specs-IsRunnable c seed rate 200 "" scale).1)

      r1long_jobs-Fits : (rate : ℕ) → All Fits (r1long_jobs shuffle shuffle_cells rate)
      unfolding r1long_jobs
      r1long_jobs-Fits rate =
          stages_fit 16 (λ seed c. r1_spec c seed rate 600)
            (λ seed. shuffle (seed + 60) (db_inbox ∷ kafka_retry ∷ [])) seeds
            (λ seed c. (specs-IsRunnable c seed rate 200 "" scale).2)

      pub later_jobs-Fits :
          (stages : Stages) (best final : Candidate) (rate : ℕ)
          → All Fits (later_jobs shuffle shuffle_cells stages best final rate)
      unfolding later_jobs
      later_jobs-Fits stages best final rate =
          let e2 = when stages.e2 (e2_jobs shuffle shuffle_cells rate) in
          let e3 = when stages.e3 (e3_jobs shuffle shuffle_cells best rate) in
          let e4 = when stages.e4 (e4_jobs shuffle shuffle_cells final rate) in
          let r1 = when stages.r1 (r1_jobs shuffle shuffle_cells rate) in
          let r1long = when stages.r1long (r1long_jobs shuffle shuffle_cells rate) in
          All-append Fits (e2 ++ e3 ++ e4 ++ r1) r1long
            (All-append Fits (e2 ++ e3 ++ e4) r1
              (All-append Fits (e2 ++ e3) e4
                (All-append Fits (e2) e3
                  (All-when Fits stages.e2 (e2_jobs shuffle shuffle_cells rate) (e2_jobs-Fits rate))
                  (All-when Fits stages.e3 (e3_jobs shuffle shuffle_cells best rate)
                    (e3_jobs-Fits best rate)))
                (All-when Fits stages.e4 (e4_jobs shuffle shuffle_cells final rate)
                  (e4_jobs-Fits final rate)))
              (All-when Fits stages.r1 (r1_jobs shuffle shuffle_cells rate) (r1_jobs-Fits rate)))
            (All-when Fits stages.r1long (r1long_jobs shuffle shuffle_cells rate)
              (r1long_jobs-Fits rate))
