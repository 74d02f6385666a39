-- ===== src/RunCheck/Budget/Sound.antt =====
-- The budget verdict of `check` (experiments/isolation/check.py) passes exactly the request logs
-- that keep to the limits at every time.
use event_driven_order_syste.Base.{
  ℕ, String, ◌≤◌, ◌<◌, ◌≡◌, refl, ◌↔◌, Bool, true, List, [], ◌∷◌, arith, leb, ◌==◌, HasEq,
  string_eq, nat_eq, pair_eq, Bool-cases, inl, inr,
}
use event_driven_order_syste.Base.Dict.{Dict, contains, insert}
use event_driven_order_syste.Base.Group.{group_by, all-group_by}
use event_driven_order_syste.Base.Lists.{All, all, keep, count_if, All-keep, All-map}
use event_driven_order_syste.Base.Sort.{sort_by, All-sort_by}
use event_driven_order_syste.MockApi.Tables.{AttemptRow}
use event_driven_order_syste.RunCheck.Overlap.{max_overlap}
use event_driven_order_syste.RunCheck.Overlap.Bound.{open_at, IsInterval, max_overlap-le_iff}
use event_driven_order_syste.RunCheck.Run.{Run}
use event_driven_order_syste.RunCheck.Window.{precise_limit, max_in_window}
use event_driven_order_syste.RunCheck.Window.Closed.{in_window, max_in_window-le_iff}
use event_driven_order_syste.RunCheck.Budget.{
  interval, intervals, seller_of, order_of, max_value, global_peak, seller_peak, order_peak,
  started_le, repeats, retries, starts, retry_peak, budget_passed,
}

-- How many of the requests run at time `t`.
abbrev pub running_at : Run → ℕ → List AttemptRow → ℕ
running_at r t attempts = open_at t (intervals r attempts)

-- A request log: no request ends before it starts, and times are epoch milliseconds.
pub record IsLog (r : Run) : Type 0 where
  pub ends : All (λ a. IsInterval (interval r a)) r.attempts
  pub epoch : All (λ (a : AttemptRow). precise_limit < a.start_at) r.attempts

pub record IsWithinBudget (r : Run) : Type 0 where
  pub global : (t : ℕ) → running_at r t r.attempts ≤ r.limits.global
  pub seller :
      (s : String) (t : ℕ)
      → running_at r t (keep (λ a. seller_of a == s) r.attempts) ≤ r.limits.seller
  pub order : (o : String × ℕ) (t : ℕ) → running_at r t (keep (λ a. order_of a == o) r.attempts) ≤ 1
  pub retry :
      (s : String) (t : ℕ)
      → count_if (in_window 1000 t) (starts (keep (λ a. seller_of a == s) (retries r)))
        ≤ r.limits.retry_per_second

max_value-le :
    {K V : Type 0} (f : V → ℕ) (bound : ℕ) (d : Dict K V)
    → leb (max_value f d) bound ≡ all (λ entry. leb (f entry.1) bound) d
unfolding max_value
max_value-le f bound [] = ground arith
max_value-le f bound ((k, v) ∷ d) = ground (arith, max_value-le f bound d)

leb_iff : (a b : ℕ) → (leb a b ≡ true) ↔ (a ≤ b)
leb_iff a b = ground arith

module _ {K : Type 0} ⦃e : HasEq K⦄ (key : AttemptRow → K) where
  -- A bound on the largest value of the groups bounds the value of each key's rows.
  max_value-group_by :
      (f : List AttemptRow → ℕ) (bound : ℕ) (rows : List AttemptRow)
      → f [] ≡ 0
      → (leb (max_value f (group_by key rows)) bound ≡ true)
        ↔ ((k : K) → f (keep (λ a. key a == k) rows) ≤ bound)
  max_value-group_by f bound rows zero =
      let (to, from) =
        all-group_by key (λ k ys. leb (f ys) bound) rows (λ k. rw zero (ground arith)) in
      (
        λ h k. (leb_iff _ bound).0 (to (rw max_value-le at h) k),
        λ h. rw max_value-le (from (λ k. (leb_iff _ bound).1 (h k))),
      )

intervals-valid :
    (r : Run) (p : AttemptRow → Bool) → IsLog r → All IsInterval (intervals r (keep p r.attempts))
unfolding intervals
intervals-valid r p l =
    All-map IsInterval (interval r) (keep p r.attempts)
      (All-keep (λ a. IsInterval (interval r a)) p r.attempts l.ends)

All-repeats :
    (P : AttemptRow → Type 0) (rows : List AttemptRow) (d : Dict String ℕ)
    → All P rows
    → All P (repeats rows d)
unfolding repeats
All-repeats P [] d h = tt
All-repeats P (a ∷ rows) d h = elim (Bool-cases (contains a.event_id d)) [
  | inl e ↦ rw e (h.0, All-repeats P rows d h.1)
  | inr e ↦ rw e (All-repeats P rows (insert a.event_id a.start_at d) h.1)
]

retries-epoch :
    (r : Run) (p : AttemptRow → Bool)
    → IsLog r
    → All (λ t. precise_limit < t) (starts (keep p (retries r)))
unfolding retries
retries-epoch r p l =
    All-map (λ t. precise_limit < t) (λ (a : AttemptRow). a.start_at) (keep p (retries r))
      (All-keep (λ (a : AttemptRow). precise_limit < a.start_at) p (retries r)
        (All-repeats (λ (a : AttemptRow). precise_limit < a.start_at)
          (sort_by started_le r.attempts) []
          (All-sort_by started_le (λ (a : AttemptRow). precise_limit < a.start_at) r.attempts
            l.epoch)))

max_overlap-nil : max_overlap [] ≡ 0
unfolding max_overlap
max_overlap-nil = refl

max_in_window-nil : max_in_window [] 1000 ≡ 0
unfolding max_in_window
max_in_window-nil = refl

module _ (r : Run) (l : IsLog r) where
  global_iff :
      (leb (global_peak r) r.limits.global ≡ true)
      ↔ ((t : ℕ) → running_at r t r.attempts ≤ r.limits.global)
  unfolding global_peak intervals
  global_iff =
      let (to, from) =
        max_overlap-le_iff (intervals r r.attempts) r.limits.global
          (All-map IsInterval (interval r) r.attempts l.ends) in
      (λ h. to ((leb_iff _ _).0 h), λ h. (leb_iff _ _).1 (from h))

  module _ {K : Type 0} ⦃e : HasEq K⦄ (key : AttemptRow → K) (bound : ℕ) where
    peaks_iff :
        (leb (max_value (λ rows. max_overlap (intervals r rows)) (group_by key r.attempts)) bound
          ≡ true)
        ↔ ((k : K) (t : ℕ) → running_at r t (keep (λ a. key a == k) r.attempts) ≤ bound)
    unfolding intervals
    peaks_iff =
        let (to, from) =
          max_value-group_by key (λ rows. max_overlap (intervals r rows)) bound r.attempts
            max_overlap-nil in
        let each = λ (k : K).
          max_overlap-le_iff (intervals r (keep (λ a. key a == k) r.attempts)) bound
            (intervals-valid r (λ a. key a == k) l) in
        (λ h k. (each k).0 (to h k), λ h. from (λ k. (each k).1 (h k)))

  retry_iff : (leb (retry_peak r) r.limits.retry_per_second ≡ true) ↔ (
      (s : String) (t : ℕ)
      → count_if (in_window 1000 t) (starts (keep (λ a. seller_of a == s) (retries r)))
        ≤ r.limits.retry_per_second)
  unfolding retry_peak
  retry_iff =
      let (to, from) =
        max_value-group_by seller_of (λ rows. max_in_window (starts rows) 1000)
          r.limits.retry_per_second (retries r) max_in_window-nil in
      let each = λ (s : String).
        max_in_window-le_iff (starts (keep (λ a. seller_of a == s) (retries r))) 1000
          r.limits.retry_per_second (retries-epoch r (λ a. seller_of a == s) l) in
      (λ h s. (each s).0 (to h s), λ h. from (λ s. (each s).1 (h s)))

-- On a request log the budget verdict passes exactly when at every time at most `global` requests
-- run in all, at most `seller` for each seller and one for each order, and in every window of
-- 1000 ms, both ends included, each seller gets at most `retryPerSecond` repeated requests.
pub budget_passed_iff : (r : Run) → IsLog r → (budget_passed r ≡ true) ↔ IsWithinBudget r
unfolding budget_passed seller_peak order_peak
budget_passed_iff r l =
    let global = global_iff r l in
    let seller = peaks_iff r l seller_of r.limits.seller in
    let order = peaks_iff r l order_of 1 in
    let retry = retry_iff r l in
    (
      λ h. record {
        global = global.0 (ground arith);
        seller = seller.0 (ground arith);
        order = order.0 (ground arith);
        retry = retry.0 (ground arith);
      },
      λ w. rw (global.1 w.global) (rw (seller.1 w.seller) (rw (order.1 w.order) (retry.1 w.retry))),
    )
