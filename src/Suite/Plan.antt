-- ===== src/Suite/Plan.antt =====
-- The whole plan (`all` of experiments/isolation/suite.py), stage by stage.
pub mod Fits
pub mod Kept
use event_driven_order_syste.Base.{
  ℕ, ◌+◌, ◌*◌, ◌-◌, String, Bool, true, false, not, ◌&&◌, Option, none, some, List, [], ◌∷◌, ◌++◌,
  map, ltb, leb, if◌then◌else◌, ◌==◌, nat_eq,
}
use event_driven_order_syste.Suite.Specs.{
  all_candidates, Candidate, kafka_bucket, kafka_retry, db_inbox, Condition, scale, stale, Spec,
  e1_spec, r1_spec, e3_spec, e4_spec,
}
use event_driven_order_syste.Suite.Budget.{
  Job, State, Note, g0_result, selection, stopped, ended, note, run_all,
}
use event_driven_order_syste.Suite.Rate.{Step, c0}
use event_driven_order_syste.Suite.Pick.{Floats, Checks, Runs, pick}

-- The stages that the command line selects.
pub record Stages : Type 0 where
  pub g0 : Bool
  pub c0 : Bool
  pub e1 : Bool
  pub e2 : Bool
  pub e3 : Bool
  pub e4 : Bool
  pub r1 : Bool
  pub r1long : Bool

abbrev pub seeds : List ℕ
seeds = 1251 ∷ 1252 ∷ 1253 ∷ []

abbrev pub extra_seeds : List ℕ
extra_seeds = 1254 ∷ 1255 ∷ []

-- `for x in xs: for y in f(x)`
abbrev pub each_of : {A B : Type 0} → (A → List B) → List A → List B
each_of f [] = []
each_of f (x ∷ xs) = f x ++ each_of f xs

abbrev pub job : ℕ → Spec → Job
job minutes spec = record { spec = spec; minutes = minutes }

abbrev pub when : {A : Type 0} → Bool → List A → List A
when b xs = if b then xs else []

-- `rate or 80`
abbrev pub or_80 : Option ℕ → ℕ
or_80 none = 80
or_80 (some rate) = if rate == 0 then 80 else rate

abbrev pub Cell : Type 0
Cell = Candidate × Condition

abbrev pub candidate_eq : Candidate → Candidate → Bool
candidate_eq kafka_bucket kafka_bucket = true
candidate_eq kafka_retry kafka_retry = true
candidate_eq db_inbox db_inbox = true
candidate_eq _ _ = false

abbrev pub cells : (best : Candidate) → List Cell
cells best = (db_inbox, scale) ∷ (db_inbox, stale) ∷ (best, scale) ∷ (best, stale) ∷ []

-- `random.Random(seed).sample(xs, len(xs))` of candidates and of cells.
module _ (shuffle : ℕ → List Candidate → List Candidate)
    (shuffle_cells : ℕ → List Cell → List Cell) where
  unfoldable pub e1_jobs : (rate : ℕ) → List Job
  unfolding e1_spec
  e1_jobs rate =
      each_of
        (λ seed. map (λ c. job 9 (e1_spec c seed rate 200 "e1")) (shuffle seed all_candidates))
        seeds

  unfoldable pub e2_jobs : (rate : ℕ) → List Job
  unfolding e1_spec
  e2_jobs rate = map (λ seed. job 9 (e1_spec db_inbox seed rate 2000 "e2")) seeds

  unfoldable pub e3_jobs : (best : Candidate) (rate : ℕ) → List Job
  unfolding e3_spec
  e3_jobs best rate =
      each_of
        (λ seed.
          map (λ cell. job 6 (e3_spec cell.0 seed rate cell.1))
            (shuffle_cells (seed + 30) (cells best)))
        seeds

  unfoldable pub e4_jobs : (final : Candidate) (rate : ℕ) → List Job
  unfolding e4_spec
  e4_jobs final rate = map (λ seed. job 6 (e4_spec final seed rate)) seeds

  unfoldable pub r1_jobs : (rate : ℕ) → List Job
  unfolding r1_spec
  r1_jobs rate =
      each_of
        (λ seed. map (λ c. job 9 (r1_spec c seed rate 180)) (shuffle (seed + 50) all_candidates))
        seeds

  unfoldable pub r1long_jobs : (rate : ℕ) → List Job
  unfolding r1_spec
  r1long_jobs rate =
      each_of
        (λ seed.
          map (λ c. job 16 (r1_spec c seed rate 600))
            (shuffle (seed + 60) (db_inbox ∷ kafka_retry ∷ [])))
        seeds

  unfoldable pub extra_jobs : (best : Candidate) (rate : ℕ) → List Job
  unfolding e1_spec
  extra_jobs best rate =
      each_of
        (λ seed.
          map (λ c. job 9 (e1_spec c seed rate 200 "e1x")) (shuffle seed (db_inbox ∷ best ∷ [])))
        extra_seeds

  -- The stages after the selection.
  unfoldable pub later_jobs : Stages → (best final : Candidate) (rate : ℕ) → List Job
  unfolding e2_jobs e3_jobs e4_jobs r1_jobs r1long_jobs
  later_jobs stages best final rate =
      when stages.e2 (e2_jobs rate)
      ++ when stages.e3 (e3_jobs best rate)
      ++ when stages.e4 (e4_jobs final rate)
      ++ when stages.r1 (r1_jobs rate)
      ++ when stages.r1long (r1long_jobs rate)

  -- `execute`, `deadline` and `step_of` are those of `Budget` and `Rate`; `checks_of` reads
  -- checks.json of a run's directory, and `floats` is that of `Pick`.
  module _ {R : Type 0} (execute : Spec → ℕ → ℕ × R) (deadline : ℕ) (step_of : R → Option Step)
      (checks_of : R → Option Checks) (floats : Floats) where
    abbrev pub result_of : Option R → Option Checks
    result_of none = none
    result_of (some files) = checks_of files

    -- `results[candidate]`: the results of the runs of E1 go to their candidates.
    unfoldable pub results_of : List Job → List (Option R) → Candidate → Runs
    results_of (j ∷ jobs) (r ∷ rs) c =
        let rest = results_of jobs rs c in
        if candidate_eq j.spec.candidate c then result_of r ∷ rest else rest
    results_of _ _ c = []

    abbrev pub has_time_for_extra : State → Bool
    has_time_for_extra s = leb (s.now + 60 * (2 * 2 * 9 + 4)) deadline

    unfoldable pub later_stages : Stages → (best final : Candidate) (rate : ℕ) → State → State
    unfolding later_jobs extra_jobs run_all
    later_stages stages best final rate s =
        let (_, s₁) = run_all execute deadline (later_jobs stages best final rate) s in
        let extra = when (stages.e1 && has_time_for_extra s₁) (extra_jobs best rate) in
        let (_, s₂) = run_all execute deadline extra s₁ in note ended s₂

    -- E1 and the selection; the flag says that no exception ended the suite.
    unfoldable pub e1_and_later : Stages → (rate : ℕ) → State → Bool × State
    unfolding run_all e1_jobs pick results_of later_stages
    e1_and_later stages rate s =
        if stages.e1
        then (let jobs = e1_jobs rate in
            let (rs, s₁) = run_all execute deadline jobs s in
            elim (pick floats (results_of jobs rs)) [
              | none ↦ (false, s₁)
              | some choice ↦
                  let (best, final) = choice in
                  (true, later_stages stages best final rate (note (selection best final) s₁))
            ])
        else (true, later_stages stages kafka_retry kafka_retry rate s)

    unfoldable pub after_g0 : Stages → Option ℕ → State → Bool × State
    unfolding c0 e1_and_later
    after_g0 stages given s =
        if stages.c0
        then (let (rate, s') = c0 execute deadline step_of (shuffle 1250 all_candidates) s in
            elim rate [ none ↦ (false, s') | some r ↦ e1_and_later stages (or_80 (some r)) s' ])
        else e1_and_later stages (or_80 given) s

    -- `g0` runs the instrument checks, with the time they take and their verdict.
    unfoldable pub all : (g0 : State → Bool × State) → Stages → Option ℕ → State → Bool × State
    unfolding after_g0
    all g0 stages given s =
        if stages.g0
        then (let (passed, s') = g0 s in
            let s'' = note (g0_result passed) s' in
            if passed then after_g0 stages given s'' else (true, note stopped s''))
        else after_g0 stages given s
