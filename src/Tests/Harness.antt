-- ===== src/Tests/Harness.antt =====
-- The runner, the collector, the local controller and the figures of the run checker.
use event_driven_order_syste.Base.{
  map, not, ℕ, ◌+◌, ◌*◌, ◌≤◌, ◌<◌, ◌≡◌, ◌↔◌, refl, String, true, false, Bool, Option, none, some,
  List, [], ◌∷◌, ◌++◌, arith, string_eq, nat_eq, ◌==◌, if◌then◌else◌, leb, ◌/◌, ◌%◌,
}
use native.Mathlib.Omega.{div_any}
use native.Mathlib.Nat.{mod-lt}
use event_driven_order_syste.Base.Lists.{keep, All, length}
use event_driven_order_syste.Collector.{Snapshot, started, collect_all}
use event_driven_order_syste.Collector.Bounds.{IsBounded, collect_all-IsBounded}
use event_driven_order_syste.LocalRun.Case.{clean, settings}
use event_driven_order_syste.LocalRun.Case.Rate.{sent_by, sweep_in_time}
use event_driven_order_syste.LocalRun.Dataset.{sweep}
use event_driven_order_syste.Reports.Peaks.{span, is_slow_row, peak_concurrency}
use event_driven_order_syste.Reports.Peaks.Projected.{peak_concurrency-max_overlap}
use event_driven_order_syste.RunCheck.Overlap.{max_overlap}
use event_driven_order_syste.LocalRun.Input.{batches, input_times}
use event_driven_order_syste.LocalRun.Input.Batches.{concat, concat-batches}
use event_driven_order_syste.RunCheck.Evidence.{Fault}
use event_driven_order_syste.RunCheck.Latency.{Member, latency_passed}
use event_driven_order_syste.RunCheck.Latency.Verdict.{
  IsNearest, cohort, Meets, MeetsAfterRounding, latency_passed-lem,
}
use event_driven_order_syste.Runner.Execute.{
  Part, drain, collect, stop_all, body, execute_run, mentions,
}
use event_driven_order_syste.Runner.Execute.CleanUp.{after_body, execute_run_cleans_up}
use event_driven_order_syste.Runner.Schedule.{Timed, schedule}
use event_driven_order_syste.Runner.Schedule.InTime.{FaultInOrder, InLoad, schedule-some}
use event_driven_order_syste.Runner.StaleOwner.{first, State, World, stale_owner}
use event_driven_order_syste.Runner.StaleOwner.Restores.{IsFree, stale_owner_restores}
use event_driven_order_syste.Runner.Wait.{Poll, value, empty, Waited, wait_for}
use event_driven_order_syste.Runner.Wait.Ends.{IsEnd, wait_for_ends}
use event_driven_order_syste.Suite.Specs.{Spec, e4_spec, kafka_retry}
use event_driven_order_syste.Tests.Data.{good_run}

-- The condition holds from 600 ms on, and a poll takes 10 ms.
abbrev polled : ℕ → ℕ × Poll ℕ String
polled t = (10, if leb 600 t then value t else empty)

wait_for_ends_example :
    (r : Waited ℕ String) × (end : ℕ) × (wait_for 250 polled 1000 0 ≡ some (r, end))
    × IsEnd 250 10 polled (λ t. omega arith) 1000 r end
wait_for_ends_example = wait_for_ends 250 10 polled (λ t. omega arith) (omega arith) 1000 0

abbrev spec : Spec
spec = e4_spec kafka_retry 1251 80

schedule-some_example :
    (fault scenario : List Timed) × (schedule spec 3000 ≡ some (fault ++ scenario))
    × FaultInOrder spec fault
    × All (InLoad spec 3000) (fault ++ scenario)
unfolding e4_spec
schedule-some_example = schedule-some spec 3000 refl refl

abbrev world : World
world = record { succeeds = λ n. true; reached = some first; takes_over = false }

abbrev partners : State
partners = record {
  partner = λ h. record { is_stopped = false; is_armed = false };
  commands = 0;
  events = [];
  stale_owner = none;
}

stale_owner_restores_example : IsFree ((stale_owner world (some "e1") partners).1.partner first)
unfolding stale_owner
stale_owner_restores_example =
    stale_owner_restores world (some "e1") partners (λ h. refl) (λ e n. refl) refl first

-- Only the drain raises.
abbrev drain_raises : Part → Bool
drain_raises drain = true
drain_raises _ = false

execute_run_cleans_up_example :
    (mentions (execute_run drain_raises true).0 collect ≡ true)
    × (mentions (execute_run drain_raises true).0 stop_all ≡ true)
    × (((execute_run drain_raises true).1 ≡ true)
        ↔ All (λ p. drain_raises p ≡ false) (body ++ after_body drain_raises true))
execute_run_cleans_up_example = execute_run_cleans_up drain_raises true refl refl refl

abbrev member : (seller : String) → Option ℕ → Member
member seller effect = record {
  phase = "fault";
  seller = seller;
  created = 1000;
  effect = effect;
  completed = none;
}

abbrev cohorts : List Member
cohorts = member "s01" (some 1200) ∷ member "slow" none ∷ []

-- The nearest rate, the higher one when two are as near.
abbrev nearest : ℕ → ℕ → ℕ
nearest misses n = (200000 * misses + n) / (2 * n)

nearest-IsNearest : IsNearest nearest
nearest-IsNearest misses n pos =
    let a = 200000 * misses + n in
    let r = nearest misses n in
    let whole = div_any a (2 * n) in
    let rest : a % (2 * n) < 2 * n = mod-lt a (omega arith) in
    let same : 2 * n * r ≡ 2 * (r * n) = grind arith in
    (omega (arith, whole, same), omega (arith, whole, same, rest))

latency_passed-lem_example :
    (latency_passed nearest "slow" [] cohorts ≡ none)
    × (latency_passed nearest "slow" ("fault" ∷ []) cohorts ≡ some true
        → All (λ p. MeetsAfterRounding (cohort "slow" p cohorts)) ("fault" ∷ []))
    × (false ≡ false
        → All (λ p. Meets (cohort "slow" p cohorts)) ("fault" ∷ [])
        → latency_passed nearest "slow" ("fault" ∷ []) cohorts ≡ some true)
latency_passed-lem_example =
    latency_passed-lem nearest nearest-IsNearest "slow" cohorts ("fault" ∷ [])

abbrev fault : Fault
fault = record { from = 100; to = 100000; seller = "slow" }

abbrev sample : (time : ℕ) → Snapshot
sample time = record {
  time = time;
  oldest_ms = none;
  db_waiting = some 2;
  sample_ns = 5;
  bytes = 8388000;
}

started-IsBounded : IsBounded started
started-IsBounded = record {
  file = omega arith;
  written = refl;
  counted = omega arith;
  memory = omega arith;
}

-- The second line would pass the limit of the file.
collect_all-IsBounded_example :
    IsBounded (collect_all 500 ((10, sample 1000) ∷ (20, sample 1500) ∷ []) started)
collect_all-IsBounded_example =
    collect_all-IsBounded 500 ((10, sample 1000) ∷ (20, sample 1500) ∷ []) started started-IsBounded

-- A second of 10 events a second has three orders of three events.
abbrev ninth : List ℕ
ninth = 1 ∷ 2 ∷ 3 ∷ 4 ∷ 5 ∷ 6 ∷ 7 ∷ 8 ∷ 9 ∷ []

abbrev numbers : List ℕ
numbers = 7 ∷ 8 ∷ 9 ∷ []

abbrev add_place : ℕ → ℕ → ℕ
add_place j x = x + 10 * j

concat-batches_example :
    (concat (batches add_place 2 numbers) ≡ 7 ∷ 18 ∷ 29 ∷ [])
    × All (λ batch. (0 < length batch) × (length batch ≤ 2)) (batches add_place 2 numbers)
unfolding batches
concat-batches_example = concat-batches add_place 2 numbers (omega arith)

-- The first call takes a second, so that the other batches catch up.
abbrev slow_first : ℕ → ℕ
slow_first n = if n == 0 then 1000 else 1

sweep_in_time_example :
    let case = settings sweep clean 10 1 in
    let sent = batches add_place case.per_tick ninth in
    (case.target_events_per_second ≡ 10)
    × (length sent ≤ 10)
    × (100 * sent_by (5000 + 1000) (input_times slow_first 5000 (length sent)) sent
        ≤ 1 * (1000 + 100))
unfolding settings
sweep_in_time_example =
    sweep_in_time add_place slow_first clean 1 1 5000 1000 ninth (omega arith) refl

peak_concurrency-max_overlap_example :
    let attempts = good_run.attempts in
    ((peak_concurrency attempts).peak_slow
      ≡ max_overlap (map span (keep (λ row. is_slow_row row) attempts)))
    × ((peak_concurrency attempts).peak_normal
        ≡ max_overlap (map span (keep (λ row. not (is_slow_row row)) attempts)))
peak_concurrency-max_overlap_example = peak_concurrency-max_overlap good_run.attempts
