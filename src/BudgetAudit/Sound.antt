-- ===== src/BudgetAudit/Sound.antt =====
-- What a run within its budgets is (experiments/verify_budgets.py).
use event_driven_order_syste.Base.{
  ℕ, ◌≤◌, ◌≡◌, String, Bool, true, false, Option, List, [], ◌∷◌, ◌++◌, map, ◌==◌, nat_eq, string_eq,
}
use event_driven_order_syste.Base.Dict.{Dict}
use event_driven_order_syste.Base.Lists.{All, keep, count_if, is_empty}
use event_driven_order_syste.RunCheck.Overlap.Bound.{open_at}
use event_driven_order_syste.RunCheck.Stats.{sorted}
use event_driven_order_syste.BudgetAudit.{
  Audit, Trace, Key, key_beq, business_commit, retry_admitted, other_stage, call_of, calls_of,
  admissions, starts, times, in_last_second, retry_findings,
}
use event_driven_order_syste.BudgetAudit.Orders.{OneAtATime}

-- The admitted retries of a seller.
abbrev pub admitted : String → Audit → List ℕ
admitted seller a = times (keep (λ (x : String × ℕ). x.0 == seller) (admissions a.traces))

-- The keys of the commits among the traces.
abbrev pub commits : List Trace → List Key
commits [] = []
commits (business_commit i id time ∷ rest) = (i, id) ∷ commits rest
commits (retry_admitted i id seller t ∷ rest) = commits rest
commits (other_stage ∷ rest) = commits rest

-- No retry is admitted of an event that the same instance committed before.
abbrev pub NoLateRetry : List Trace → Type 0
NoLateRetry traces =
    (before after : List Trace) (i : Option String) (id seller : String) (t : ℕ)
    → traces ≡ before ++ retry_admitted i id seller t ∷ after
    → All (λ key. key_beq (i, id) key ≡ false) (commits before)

pub record IsWithin (a : Audit) : Type 0 where
  pub normal : (t : ℕ) → open_at t (map call_of (calls_of "normal" a.attempts)) ≤ 2
  pub slow : (t : ℕ) → open_at t (map call_of (calls_of "slow" a.attempts)) ≤ 2
  pub normal_orders : OneAtATime (calls_of "normal" a.attempts)
  pub slow_orders : OneAtATime (calls_of "slow" a.attempts)
  pub no_late_retry : a.inbox_mode ≡ true → NoLateRetry a.traces
  pub retries : (seller : String) (t : ℕ) → count_if (in_last_second t) (admitted seller a) ≤ 2
  pub evidence : a.retries_expected ≡ true → is_empty (starts a.traces) ≡ false

-- No finding on the retries of one seller.
abbrev quiet : String → List (String × ℕ) → Bool
quiet seller rows = is_empty (retry_findings seller (sorted (times rows)) (sorted (times rows)))
