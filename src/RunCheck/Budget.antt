-- ===== src/RunCheck/Budget.antt =====
-- The budget verdict of `check` (experiments/isolation/check.py), on the seller API's request log.
pub mod Sound
use event_driven_order_syste.Base.{
  ℕ, String, max, Bool, true, false, ◌&&◌, ◌||◌, Option, none, some, List, [], ◌∷◌, map, leb, ltb,
  ◌==◌, string_eq, nat_eq, pair_eq, if◌then◌else◌,
}
use event_driven_order_syste.Base.Dict.{Dict, contains, insert}
use event_driven_order_syste.Base.Group.{group_by}
use event_driven_order_syste.Base.Sort.{sort_by}
use event_driven_order_syste.MockApi.Tables.{AttemptRow}
use event_driven_order_syste.RunCheck.Overlap.{Interval, max_overlap}
use event_driven_order_syste.RunCheck.Run.{Run}
use event_driven_order_syste.RunCheck.Window.{max_in_window}

abbrev pub or_end : Option ℕ → ℕ → ℕ
or_end none end = end
or_end (some t) end = t

-- A request without an end counts as running until the observation ends.
unfoldable pub interval : Run → AttemptRow → Interval
interval r a = (a.start_at, or_end a.end_at r.end_of_observation)

unfoldable pub intervals : Run → List AttemptRow → List Interval
unfolding interval
intervals r attempts = map (interval r) attempts

abbrev pub seller_of : AttemptRow → String
seller_of a = a.seller_id

abbrev pub order_of : AttemptRow → String × ℕ
order_of a = (a.seller_id, a.order_id)

abbrev pub event_of : AttemptRow → String
event_of a = a.event_id

-- `max(f(v) for v in d.values())`, 0 for an empty dict
unfoldable pub max_value {ℓ} : {K : Type ℓ} {V : Type 0} → (V → ℕ) → Dict K V → ℕ
max_value f [] = 0
max_value f ((k, v) ∷ d) = max (f v) (max_value f d)

unfoldable pub global_peak : Run → ℕ
unfolding intervals
global_peak r = max_overlap (intervals r r.attempts)

unfoldable pub seller_peak : Run → ℕ
unfolding intervals max_value
seller_peak r = max_value (λ rows. max_overlap (intervals r rows)) (group_by seller_of r.attempts)

unfoldable pub order_peak : Run → ℕ
unfolding intervals max_value
order_peak r = max_value (λ rows. max_overlap (intervals r rows)) (group_by order_of r.attempts)

-- Reported, and not part of the verdict.
unfoldable pub event_peak : Run → ℕ
unfolding intervals max_value
event_peak r = max_value (λ rows. max_overlap (intervals r rows)) (group_by event_of r.attempts)

-- The order of the pairs `(start_at, id)`.
abbrev pub started_le : AttemptRow → AttemptRow → Bool
started_le a b =
    if ltb a.start_at b.start_at then true else (a.start_at == b.start_at && leb a.id b.id)

-- The attempts whose event is in `first_attempt` already; the others enter it.
unfoldable pub repeats : List AttemptRow → (first_attempt : Dict String ℕ) → List AttemptRow
repeats [] first_attempt = []
repeats (a ∷ rest) first_attempt =
    if contains a.event_id first_attempt
    then a ∷ repeats rest first_attempt
    else repeats rest (insert a.event_id a.start_at first_attempt)

unfoldable pub retries : Run → List AttemptRow
unfolding repeats
retries r = repeats (sort_by started_le r.attempts) []

abbrev pub starts : List AttemptRow → List ℕ
starts rows = map (λ (a : AttemptRow). a.start_at) rows

unfoldable pub retry_peak : Run → ℕ
unfolding retries max_value
retry_peak r = max_value (λ rows. max_in_window (starts rows) 1000) (group_by seller_of (retries r))

unfoldable pub budget_passed : Run → Bool
budget_passed r =
    leb (global_peak r) r.limits.global
    && (leb (seller_peak r) r.limits.seller
        && (leb (order_peak r) 1 && leb (retry_peak r) r.limits.retry_per_second))
