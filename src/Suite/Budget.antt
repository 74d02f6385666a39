-- ===== src/Suite/Budget.antt =====
-- `Suite.run` (experiments/isolation/suite.py): a run is started only if the time that is left
-- covers it.
pub mod Deadline
use event_driven_order_syste.Base.{
  ℕ, ◌+◌, ◌*◌, Bool, true, false, Option, none, some, List, [], ◌∷◌, ◌++◌, ltb, if◌then◌else◌,
}
use event_driven_order_syste.Suite.Specs.{Candidate, Spec}

-- An entry of suite.jsonl.
pub data Note : Type 0 where
  not_run : Spec → Note
  planned : Spec → Note
  finished : Spec → Note
  g0_result : Bool → Note
  c0_result : (rate : ℕ) → Note
  selection : (best final : Candidate) → Note
  stopped : Note
  ended : Note

-- A planned run with the minutes that are reserved for it.
pub record Job : Type 0 where
  pub spec : Spec
  pub minutes : ℕ

-- The clock, in seconds, and the log. The deadline does not change.
pub record State : Type 0 where
  pub now : ℕ
  pub log : List Note

abbrev pub note : Note → State → State
note entry s = record s { log = s.log ++ entry ∷ [] }

-- `execute` says of a specification and a starting time the seconds that the run takes and what
-- it leaves in its directory.
module _ {R : Type 0} (execute : Spec → ℕ → ℕ × R) (deadline : ℕ) where
  -- `remaining_minutes() < minutes + 1`, with a deadline that may have passed
  unfoldable pub lacks_time : (now minutes : ℕ) → Bool
  lacks_time now minutes = ltb deadline (now + 60 * (minutes + 1))

  unfoldable pub start_run : Job → State → Option R × State
  start_run job s =
      let (seconds, files) = execute job.spec s.now in
      (
        some files,
        record { now = s.now + seconds; log = s.log ++ planned job.spec ∷ finished job.spec ∷ [] },
      )

  unfoldable pub run : Job → State → Option R × State
  unfolding lacks_time start_run
  run job s =
      if lacks_time s.now job.minutes then (none, note (not_run job.spec) s) else start_run job s

  -- The runs of a stage, in order.
  unfoldable pub run_all : List Job → State → List (Option R) × State
  unfolding run
  run_all [] s = ([], s)
  run_all (job ∷ jobs) s =
      let (result, s') = run job s in
      let (results, last) = run_all jobs s' in (result ∷ results, last)
