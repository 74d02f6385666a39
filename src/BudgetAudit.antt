-- ===== src/BudgetAudit.antt =====
-- experiments/verify_budgets.py: overlap and retry admission of one run, from the mock's request
-- history and the service's trace.
pub mod Window
pub mod Orders
pub mod Sound
use event_driven_order_syste.Base.{
  ℕ, zero, suc, ◌+◌, String, Bool, true, false, not, ◌&&◌, ◌||◌, Option, none, some, List, [], ◌∷◌,
  ◌++◌, map, leb, ltb, ◌==◌, nat_eq, string_eq, pair_eq, if◌then◌else◌,
}
use event_driven_order_syste.Base.Dict.{Dict, contains, insert}
use event_driven_order_syste.Base.Group.{group_by}
use event_driven_order_syste.Base.Lists.{keep, count_if, any, is_empty}
use event_driven_order_syste.MockApi.Tables.{AttemptRow}
use event_driven_order_syste.RunCheck.Overlap.{Interval, max_overlap}
use event_driven_order_syste.RunCheck.Stats.{sorted}

-- A line of traces.json. `instance` is missing in some traces.
pub data Trace : Type 0 where
  business_commit : (instance_id : Option String) (event_id : String) (time : ℕ) → Trace
  retry_admitted :
      (instance_id : Option String) (event_id seller_id : String) (admitted_at : ℕ) → Trace
  other_stage : Trace

-- The settings of the manifest that are read, as the tests on them: `mode` is `inbox`, and retries
-- are expected in the trace.
pub record Audit : Type 0 where
  pub attempts : List AttemptRow
  pub traces : List Trace
  pub inbox_mode : Bool
  pub retries_expected : Bool

pub data Finding : Type 0 where
  concurrent_calls : (seller : String) (peak : ℕ) → Finding
  same_order : (overlaps : ℕ) → Finding
  completed_retry : (event_id : String) → Finding
  retry_admissions : (seller : String) (count : ℕ) → Finding
  evidence_missing : Finding

-- `row['end_at'] or default`: missing and 0 give the default.
abbrev pub end_or : Option ℕ → ℕ → ℕ
end_or none default = default
end_or (some zero) default = default
end_or (some (suc n)) default = suc n

abbrev pub call_of : AttemptRow → Interval
call_of row = (row.start_at, end_or row.end_at row.start_at)

abbrev pub calls_of : String → List AttemptRow → List AttemptRow
calls_of seller attempts = keep (λ (x : AttemptRow). x.seller_id == seller) attempts

-- The loop over the sorted changes of a seller is the sweep of `max_overlap`: the same points in
-- the same order.
unfoldable pub peak_of : String → List AttemptRow → ℕ
peak_of seller attempts = max_overlap (map call_of (calls_of seller attempts))

unfoldable pub report_if : Bool → Finding → List Finding
report_if true f = f ∷ []
report_if false f = []

unfoldable pub seller_findings : List AttemptRow → String → List Finding
unfolding report_if peak_of
seller_findings attempts seller =
    report_if (ltb 2 (peak_of seller attempts)) (concurrent_calls seller (peak_of seller attempts))

-- Two operations of one order, the second started while the first was running.
abbrev pub overlaps : AttemptRow → AttemptRow → Bool
overlaps first second =
    first.order_id == second.order_id
    && (not (first.event_id == second.event_id)
        && (ltb first.start_at second.start_at && ltb second.start_at (end_or first.end_at 0)))

unfoldable pub overlaps_from : List AttemptRow → List AttemptRow → ℕ
overlaps_from requests [] = 0
overlaps_from requests (first ∷ rest) =
    count_if (overlaps first) requests + overlaps_from requests rest

unfoldable pub same_order_overlaps : List AttemptRow → ℕ
unfolding overlaps_from
same_order_overlaps attempts =
    overlaps_from (calls_of "normal" attempts) (calls_of "normal" attempts)
    + overlaps_from (calls_of "slow" attempts) (calls_of "slow" attempts)

-- The event's instance and id, the key of `committed`.
abbrev pub Key : Type 0
Key = Option String × String

abbrev pub instance_beq : Option String → Option String → Bool
instance_beq none none = true
instance_beq (some a) (some b) = a == b
instance_beq none (some b) = false
instance_beq (some a) none = false

abbrev pub key_beq : Key → Key → Bool
key_beq a b = instance_beq a.0 b.0 && a.1 == b.1

-- The loop over the traces with the keys committed so far.
unfoldable pub completed_retries :
    (inbox_mode : Bool) (committed : List Key) → List Trace → List Finding
completed_retries inbox_mode committed [] = []
completed_retries inbox_mode committed (business_commit i id time ∷ rest) =
    completed_retries inbox_mode ((i, id) ∷ committed) rest
completed_retries inbox_mode committed (retry_admitted i id seller t ∷ rest) =
    let later = completed_retries inbox_mode committed rest in
    if inbox_mode && any (key_beq (i, id)) committed then completed_retry id ∷ later else later
completed_retries inbox_mode committed (other_stage ∷ rest) =
    completed_retries inbox_mode committed rest

unfoldable pub admissions : List Trace → List (String × ℕ)
admissions [] = []
admissions (retry_admitted i id seller t ∷ rest) = (seller, t) ∷ admissions rest
admissions (business_commit i id time ∷ rest) = admissions rest
admissions (other_stage ∷ rest) = admissions rest

-- `starts`
unfoldable pub starts : List Trace → Dict String (List (String × ℕ))
unfolding admissions
starts traces = group_by (λ (a : String × ℕ). a.0) (admissions traces)

abbrev pub times : List (String × ℕ) → List ℕ
times rows = map (λ (a : String × ℕ). a.1) rows

-- `value - 1000 < x <= value`
abbrev pub in_last_second : (value x : ℕ) → Bool
in_last_second value x = ltb value (x + 1000) && leb x value

unfoldable pub retry_findings : String → (values : List ℕ) → List ℕ → List Finding
unfolding report_if
retry_findings seller values [] = []
retry_findings seller values (value ∷ rest) =
    let count = count_if (in_last_second value) values in
    report_if (ltb 2 count) (retry_admissions seller count) ++ retry_findings seller values rest

unfoldable pub all_retry_findings : Dict String (List (String × ℕ)) → List Finding
unfolding retry_findings sorted
all_retry_findings [] = []
all_retry_findings ((seller, rows) ∷ rest) =
    retry_findings seller (sorted (times rows)) (sorted (times rows)) ++ all_retry_findings rest

unfoldable pub findings : Audit → List Finding
unfolding report_if
findings a =
    seller_findings a.attempts "normal"
    ++ (seller_findings a.attempts "slow"
        ++ (report_if (ltb 0 (same_order_overlaps a.attempts))
              (same_order (same_order_overlaps a.attempts))
            ++ (completed_retries a.inbox_mode [] a.traces
                ++ (all_retry_findings (starts a.traces)
                    ++ report_if (a.retries_expected && is_empty (starts a.traces))
                        evidence_missing))))

unfoldable pub budgets_passed : Audit → Bool
budgets_passed a = is_empty (findings a)
