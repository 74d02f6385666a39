-- ===== src/Tests/Plans.antt =====
-- The experiment plan (experiments/isolation/suite.py).
use event_driven_order_syste.Base.{
  ℕ, ◌+◌, ◌*◌, ◌≤◌, ◌<◌, ◌≡◌, ◌↔◌, ◌&&◌, refl, inr, true, Bool, Option, none, some, List, [], ◌∷◌,
  ◌++◌, arith, ltb,
}
use event_driven_order_syste.Suite.Specs.{
  Candidate, kafka_bucket, kafka_retry, db_inbox, Spec, e1_spec,
}
use event_driven_order_syste.Suite.Specs.Phases.{total_seconds}
use event_driven_order_syste.Suite.Budget.{Job, State, run_all}
use event_driven_order_syste.Suite.Budget.Deadline.{concluded, concluded-run_all}
use event_driven_order_syste.Suite.Rate.{Step, stable_at_80, arrived, completed}
use event_driven_order_syste.Suite.Rate.Stable.{stable_at_80_iff}
use event_driven_order_syste.Suite.Pick.{Floats, Checks, Runs, safe, pick}
use event_driven_order_syste.Suite.Pick.Kafka.{IsKafkaChoice}
use event_driven_order_syste.Suite.Pick.Rule.{IsFinal, pick-some, pick-none}
use event_driven_order_syste.Suite.Plan.{Stages, Cell, job, all}
use event_driven_order_syste.Suite.Plan.Fits.{TakesPlannedTime}
use event_driven_order_syste.Suite.Plan.Kept.{all_in_time}

abbrev first_spec : Spec
first_spec = e1_spec db_inbox 1251 80 200 "e1"

-- A run that takes its phases, its longest drain, and three minutes of waiting.
abbrev exact : Spec → ℕ → ℕ × Option Checks
exact spec now = (total_seconds spec.phases + spec.drain_seconds + 180, none)

abbrev start : State
start = record { now = 0; log = [] }

abbrev jobs : List Job
jobs = job 9 first_spec ∷ job 9 first_spec ∷ []

concluded-run_all_example :
    concluded (run_all exact 700 jobs start).1.log ≡ [] ++ first_spec ∷ first_spec ∷ []
concluded-run_all_example = concluded-run_all exact 700 jobs start

abbrev sample_step : Step
sample_step = record { t1 = 0; t2 = 30000; created = 10 ∷ 20 ∷ []; done = 40 ∷ 50 ∷ [] }

stable_at_80_iff_example :
    (stable_at_80 sample_step ≡ true)
    ↔ ((0 < arrived sample_step) × (95 * arrived sample_step ≤ 100 * completed sample_step))
stable_at_80_iff_example = stable_at_80_iff sample_step (omega arith)

abbrev checks : (rate : ℕ) → Option Checks
checks rate = some (record { is_passed = true; fault_miss = some rate; recovery_miss = none })

abbrev results : Candidate → Runs
results kafka_bucket = checks 2000 ∷ []
results kafka_retry = checks 100 ∷ []
results db_inbox = checks 50 ∷ []

-- The comparisons of the exact means.
abbrev floats : Floats
floats = record {
  lt = λ a b. ltb (a.0 + a.1) (b.0 + b.1);
  is_close = λ a b. ltb (a.0 + a.1) (b.0 + b.1 + 1000) && ltb (b.0 + b.1) (a.0 + a.1 + 1000);
}

pick-some_example :
    (best : Candidate) × (final : Candidate) × (pick floats results ≡ some (best, final))
    × IsKafkaChoice floats results best
    × IsFinal floats results best final
pick-some_example = pick-some floats results refl refl refl

-- No run of either Kafka structure left checks.
abbrev no_results : Candidate → Runs
no_results db_inbox = checks 50 ∷ []
no_results _ = none ∷ none ∷ []

pick-none_example : pick floats no_results ≡ none
unfolding safe
pick-none_example = pick-none floats no_results kafka_retry (inr refl) refl refl refl refl

abbrev every_stage : Stages
every_stage = record {
  g0 = true;
  c0 = true;
  e1 = true;
  e2 = true;
  e3 = true;
  e4 = true;
  r1 = true;
  r1long = true;
}

-- Instrument checks that take five minutes.
abbrev slow_g0 : State → Bool × State
slow_g0 s = (true, record s { now = s.now + 300 })

exact-TakesPlannedTime : TakesPlannedTime exact 18000 120
exact-TakesPlannedTime spec now = omega arith

all_in_time_example :
    (all
      (λ seed xs. xs)
      (λ seed (xs : List Cell). xs)
      exact
      18000
      (λ files. none)
      (λ files. files)
      floats
      slow_g0
      every_stage
      none
      start).1.now
    ≤ 18000 + 120
all_in_time_example =
    all_in_time exact 18000 120 exact-TakesPlannedTime (λ seed xs. xs) (λ seed xs. xs)
      (λ files. none) (λ files. files) floats slow_g0 every_stage none start (λ h. omega arith)
      (omega arith)
