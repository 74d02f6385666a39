-- ===== src/Tests/Checks.antt =====
-- The verdicts on a run directory (experiments/isolation/check.py).
use event_driven_order_syste.Base.Sort.{sort_by}
use event_driven_order_syste.RunCheck.Run.{accepted, planned_events}
use event_driven_order_syste.Base.Group.{group_by}
use event_driven_order_syste.Base.Dict.{contains, insert, lookup}
use event_driven_order_syste.Base.{
  ℕ, ◌*◌, ◌≤◌, ◌<◌, ◌≡◌, ◌↔◌, refl, true, some, [], ◌∷◌, arith, nat_eq, string_eq, pair_eq,
}
use event_driven_order_syste.Base.Lists.{count_if}
use event_driven_order_syste.RunCheck.Stats.{pct, q50}
use event_driven_order_syste.RunCheck.Stats.Rank.{at_most, below, pct-rank}
use event_driven_order_syste.RunCheck.Overlap.{max_overlap}
use event_driven_order_syste.RunCheck.Overlap.Bound.{open_at, max_overlap-le_iff}
use event_driven_order_syste.RunCheck.Window.{max_in_window}
use event_driven_order_syste.RunCheck.Window.Closed.{in_window, max_in_window-le_iff}
use event_driven_order_syste.RunCheck.Safety.{
  safety_passed, mismatched, rejected_out_of_order, order_breaks, unknown, effects_by_event,
  stale_writes, duplicates,
}
use event_driven_order_syste.RunCheck.Safety.Sound.{IsSafe, safety_passed_iff}
use event_driven_order_syste.RunCheck.Liveness.{
  liveness_passed, undelivered, not_accepted, pending_delivered, refused,
}
use event_driven_order_syste.RunCheck.Liveness.Sound.{IsLive, liveness_passed_iff}
use event_driven_order_syste.RunCheck.Budget.{
  budget_passed, interval, global_peak, retry_peak, seller_peak, order_peak,
}
use event_driven_order_syste.RunCheck.Budget.Sound.{IsLog, IsWithinBudget, budget_passed_iff}
use event_driven_order_syste.Tests.Data.{good_run}

pct-rank_example :
    (v : ℕ) × (pct (30 ∷ 10 ∷ 20 ∷ []) q50 ≡ some v)
    × (150 ≤ 100 * at_most v (30 ∷ 10 ∷ 20 ∷ []))
    × (100 * below v (30 ∷ 10 ∷ 20 ∷ []) < 150)
pct-rank_example = pct-rank (30 ∷ 10 ∷ 20 ∷ []) q50 (omega arith)

max_overlap-le_iff_example :
    (max_overlap ((1, 5) ∷ (5, 9) ∷ []) ≤ 1) ↔ ((t : ℕ) → open_at t ((1, 5) ∷ (5, 9) ∷ []) ≤ 1)
max_overlap-le_iff_example =
    max_overlap-le_iff ((1, 5) ∷ (5, 9) ∷ []) 1 (omega arith, (omega arith, tt))

max_in_window-le_iff_example :
    (max_in_window (1700000001000 ∷ 1700000000000 ∷ []) 1000 ≤ 1)
    ↔ ((a : ℕ) → count_if (in_window 1000 a) (1700000001000 ∷ 1700000000000 ∷ []) ≤ 1)
max_in_window-le_iff_example =
    max_in_window-le_iff (1700000001000 ∷ 1700000000000 ∷ []) 1000 1
      (omega arith, (omega arith, tt))

safety_passed_iff_example : (safety_passed good_run ≡ true) ↔ IsSafe good_run
safety_passed_iff_example = safety_passed_iff good_run

liveness_passed_iff_example : (liveness_passed good_run ≡ true) ↔ IsLive good_run
liveness_passed_iff_example = liveness_passed_iff good_run

good_run-IsLog : IsLog good_run
unfolding interval
good_run-IsLog = record {
  ends = (omega arith, (omega arith, (omega arith, tt)));
  epoch = (omega arith, (omega arith, (omega arith, tt)));
}

budget_passed_iff_example : (budget_passed good_run ≡ true) ↔ IsWithinBudget good_run
budget_passed_iff_example = budget_passed_iff good_run good_run-IsLog

-- The run passes.
good_run-safe : safety_passed good_run ≡ true
unfolding safety_passed duplicates group_by insert lookup unknown contains planned_events mismatched
    order_breaks sort_by rejected_out_of_order stale_writes
good_run-safe = refl

good_run-live : liveness_passed good_run ≡ true
unfolding liveness_passed undelivered accepted insert contains effects_by_event group_by
    pending_delivered not_accepted planned_events refused
good_run-live = refl

good_run-budget : budget_passed good_run ≡ true
unfolding budget_passed global_peak max_overlap seller_peak group_by insert lookup order_peak
    retry_peak contains max_in_window
good_run-budget = refl
