-- ===== src/Suite/Budget/Deadline.antt =====
-- `Suite.run` (experiments/isolation/suite.py): a stage keeps to the deadline and to its plan.
use event_driven_order_syste.Base.{
  ℕ, ◌+◌, ◌*◌, ◌≤◌, ◌≡◌, refl, sym, ◌∙◌, ap, List, [], ◌∷◌, ◌++◌, ltb, arith, inl, inr, Bool-cases,
  map,
}
use event_driven_order_syste.Base.Lists.{All}
use mathlib.Core.List.{append-nil, append_assoc}
use event_driven_order_syste.Suite.Specs.{Spec}
use event_driven_order_syste.Suite.Budget.{
  Note, not_run, planned, finished, g0_result, c0_result, selection, stopped, ended, Job, State,
  lacks_time, start_run, run, run_all,
}

-- The specifications that the log says something final of, in order.
abbrev pub concluded : List Note → List Spec
concluded [] = []
concluded (not_run spec ∷ log) = spec ∷ concluded log
concluded (planned spec ∷ log) = concluded log
concluded (g0_result passed ∷ log) = concluded log
concluded (c0_result rate ∷ log) = concluded log
concluded (selection best final ∷ log) = concluded log
concluded (stopped ∷ log) = concluded log
concluded (ended ∷ log) = concluded log
concluded (finished spec ∷ log) = spec ∷ concluded log

pub concluded-append : (xs ys : List Note) → concluded (xs ++ ys) ≡ concluded xs ++ concluded ys
concluded-append [] ys = refl
concluded-append (not_run spec ∷ xs) ys = ap (λ t. spec ∷ t) (concluded-append xs ys)
concluded-append (planned spec ∷ xs) ys = concluded-append xs ys
concluded-append (finished spec ∷ xs) ys = ap (λ t. spec ∷ t) (concluded-append xs ys)
concluded-append (g0_result passed ∷ xs) ys = concluded-append xs ys
concluded-append (c0_result rate ∷ xs) ys = concluded-append xs ys
concluded-append (selection best final ∷ xs) ys = concluded-append xs ys
concluded-append (stopped ∷ xs) ys = concluded-append xs ys
concluded-append (ended ∷ xs) ys = concluded-append xs ys

module _ {R : Type 0} (execute : Spec → ℕ → ℕ × R) (deadline : ℕ) where
  -- A run takes at most its reserved minutes, the one minute that `run` adds, and `slack` seconds.
  abbrev pub FitsIn : (slack : ℕ) → Job → Type 0
  FitsIn slack job = (now : ℕ) → (execute job.spec now).0 ≤ 60 * (job.minutes + 1) + slack

  pub run_in_time :
      (slack : ℕ) (job : Job) (s : State)
      → FitsIn slack job
      → s.now ≤ deadline + slack
      → (run execute deadline job s).1.now ≤ deadline + slack
  unfolding run start_run lacks_time
  run_in_time slack job s fits h =
      elim (Bool-cases (ltb deadline (s.now + 60 * (job.minutes + 1)))) [
        | inl e ↦ rw e h
        | inr e ↦ rw e (ground (arith, e, fits s.now))
      ]

  concluded-run :
      (job : Job) (s : State)
      → concluded (run execute deadline job s).1.log ≡ concluded s.log ++ job.spec ∷ []
  unfolding run start_run
  concluded-run job s = elim (Bool-cases (lacks_time execute deadline s.now job.minutes)) [
    | inl e ↦ rw e (concluded-append s.log (not_run job.spec ∷ []))
    | inr e ↦ rw e (concluded-append s.log _)
  ]

  -- A run is started only in time for its reserved minutes, so when every run exceeds them and one
  -- more by at most `slack` seconds, so does the stage exceed the deadline.
  pub run_all_in_time :
      (slack : ℕ) (jobs : List Job) (s : State)
      → All (FitsIn slack) jobs
      → s.now ≤ deadline + slack
      → (run_all execute deadline jobs s).1.now ≤ deadline + slack
  unfolding run_all
  run_all_in_time slack [] s fits h = h
  run_all_in_time slack (job ∷ jobs) s fits h =
      run_all_in_time slack jobs (run execute deadline job s).1 fits.1
        (run_in_time slack job s fits.0 h)

  -- A stage leaves one final entry in the log for each of its runs, in the order of the plan:
  -- finished, or not run for lack of time.
  pub concluded-run_all :
      (jobs : List Job) (s : State)
      → concluded (run_all execute deadline jobs s).1.log
        ≡ concluded s.log ++ map (λ job. job.spec) jobs
  unfolding run_all
  concluded-run_all [] s = sym (append-nil (concluded s.log))
  concluded-run_all (job ∷ jobs) s =
      concluded-run_all jobs (run execute deadline job s).1
      ∙ ap (λ t. t ++ map (λ job. job.spec) jobs) (concluded-run job s)
      ∙ append_assoc (concluded s.log) (job.spec ∷ []) (map (λ job. job.spec) jobs)
