-- ===== src/Runner/Execute.antt =====
-- `Run.execute` and `execute` of experiments/isolation/runner.py: the parts of a run, what happens
-- when one of them raises, and the summary.
pub mod CleanUp
use event_driven_order_syste.Base.{
  ℕ, Bool, true, false, not, ◌&&◌, Option, none, some, List, [], ◌∷◌, ◌++◌, ◌==◌, nat_eq,
  if◌then◌else◌,
}
use event_driven_order_syste.Base.Lists.{any}

-- The parts, in the order of the source. `plan` is what stands before the `try`; `stop_observer`,
-- `kill_load`, `collect` and `stop_all` are its `finally`; `check` is what follows it.
pub data Part : Type 0 where
  plan reset copy_files start_source start_partners wait_assigned clock_offsets : Part
  start_observer start_load schedule wait_load join_threads drain : Part
  stop_observer kill_load collect stop_all check : Part

abbrev pub code : Part → ℕ
code plan = 0
code reset = 1
code copy_files = 2
code start_source = 3
code start_partners = 4
code wait_assigned = 5
code clock_offsets = 6
code start_observer = 7
code start_load = 8
code schedule = 9
code wait_load = 10
code join_threads = 11
code drain = 12
code stop_observer = 13
code kill_load = 14
code collect = 15
code stop_all = 16
code check = 17

abbrev pub mentions : List Part → Part → Bool
mentions log p = any (λ q. code q == code p) log

abbrev pub body : List Part
body =
    reset ∷ copy_files ∷ start_source ∷ start_partners ∷ wait_assigned ∷ clock_offsets
    ∷ start_observer ∷ start_load ∷ schedule ∷ wait_load ∷ join_threads ∷ drain ∷ []

-- `raises` says which parts raise, and `load_runs` whether the load generator still runs at the
-- end of the `try`.
module _ (raises : Part → Bool) (load_runs : Bool) where
  -- The parts that are tried, in order, up to one that raises, and whether none did.
  unfoldable pub try_parts : List Part → List Part × Bool
  try_parts [] = ([], true)
  try_parts (p ∷ ps) =
      let (rest, ok) = try_parts ps in if raises p then (p ∷ [], false) else (p ∷ rest, ok)

  -- A process is there when its start was tried and did not raise.
  abbrev pub is_started : List Part → Part → Bool
  is_started tried p = mentions tried p && not (raises p)

  abbrev pub finally : List Part → List Part
  finally tried =
      (if is_started tried start_observer then stop_observer ∷ [] else [])
      ++ (if is_started tried start_load && load_runs then kill_load ∷ [] else [])

  -- `try: collect() finally: stop_all()`
  abbrev pub collect_and_stop : List Part × Bool
  collect_and_stop = (collect ∷ stop_all ∷ [], not (raises collect) && not (raises stop_all))

  -- The `finally`, and the checks when nothing raised; whether the checks are written.
  unfoldable pub end_run : (tried : List Part) (ok : Bool) → List Part × Bool
  end_run tried ok =
      let (ended, calm) = try_parts (finally tried) in
      let (last, fine) = collect_and_stop in
      if calm
      then (if ok && fine
          then (tried ++ ended ++ last ++ check ∷ [], not (raises check))
          else (tried ++ ended ++ last, false))
      else (tried ++ ended, false)

  -- What is done, in order, and whether the checks are written.
  unfoldable pub execute_run : List Part × Bool
  execute_run =
      if raises plan
      then (plan ∷ [], false)
      else (let (tried, ok) = try_parts body in
          let (done, checked) = end_run tried ok in (plan ∷ done, checked))

-- checks.json, as the summary reads it.
pub record Verdicts : Type 0 where
  pub safety : Bool
  pub liveness : Bool
  pub budget : Bool
  pub latency : Option Bool
  pub evidence : Bool

-- summary.json: the verdicts or the exception.
pub data Summary : Type 0 where
  verdicts : Verdicts → Summary
  error : Summary

-- The summary of a run, which is written in both cases.
unfoldable pub summary : (checked : Bool) → Verdicts → Summary
summary checked v = if checked then verdicts v else error
