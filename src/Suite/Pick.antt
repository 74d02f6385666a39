-- ===== src/Suite/Pick.antt =====
-- The selection rule of experiments/isolation/suite.py (`judged_miss`, `pick`). Miss rates are
-- rounded to five places by the checker, and they are counted in units of 0.00001. The mean of the
-- two middle rates is a float, so how two medians compare is a parameter.
pub mod Kafka
pub mod Rule
use event_driven_order_syste.Base.{
  ℕ, ◌+◌, ◌-◌, ◌/◌, Bool, true, false, not, ◌&&◌, Option, none, some, List, [], ◌∷◌, map, max, ltb,
  leb, nat_eq, ◌==◌, if◌then◌else◌,
}
use event_driven_order_syste.Base.Lists.{length, get_elem?, all, keep, is_empty}
use event_driven_order_syste.Base.Dict.{count_of}
use event_driven_order_syste.Base.Opt.{◌>>=◌, present, map_all}
use event_driven_order_syste.Base.Sort.{sort_by}
use event_driven_order_syste.RunCheck.Stats.{sorted}
use event_driven_order_syste.Suite.Specs.{Candidate, kafka_bucket, kafka_retry, db_inbox}

-- What the rule reads of checks.json; a missing phase, group or rate is `none`.
pub record Checks : Type 0 where
  pub is_passed : Bool
  pub fault_miss : Option ℕ
  pub recovery_miss : Option ℕ

-- The results of a candidate's runs; `none` is a run that did not start or left no checks.
abbrev pub Runs : Type 0
Runs = List (Option Checks)

unfoldable pub judged_miss : Checks → ℕ
judged_miss r = max (count_of r.fault_miss) (count_of r.recovery_miss)

-- The two middle rates of which a median is the mean; they are the same for an odd number.
abbrev pub Median : Type 0
Median = ℕ × ℕ

-- `<` on two medians, and `abs(a - b) < 0.005`, in floating point.
pub record Floats : Type 0 where
  pub lt : Median → Median → Bool
  pub is_close : Median → Median → Bool

-- `statistics.median`, which raises on an empty list.
unfoldable pub median : List ℕ → Option Median
unfolding sorted
median values = do
  low ← get_elem? (sorted values) ((length values - 1) / 2)
  high ← get_elem? (sorted values) (length values / 2)
  some (low, high)

-- A median, or `math.inf`.
pub data Miss : Type 0 where
  infinite : Miss
  rate : Median → Miss

abbrev pub run_is_safe : Option Checks → Bool
run_is_safe none = false
run_is_safe (some r) = r.is_passed

unfoldable pub safe : Runs → Bool
safe runs = not (is_empty runs) && all run_is_safe runs

unfoldable pub median_miss : Runs → Option Miss
unfolding median judged_miss
median_miss [] = some infinite
median_miss (r ∷ rs) = do m ← median (map judged_miss (present (r ∷ rs))); some (rate m)

-- `r and judged_miss(r) <= 0.01`
abbrev pub run_meets : Option Checks → Bool
unfolding judged_miss
run_meets none = false
run_meets (some r) = leb (judged_miss r) 1000

unfoldable pub meets : Runs → Bool
unfolding safe
meets runs = safe runs && (length runs == 3) && all run_meets runs

-- The sorting key: the median, then the preference.
pub record Key : Type 0 where
  pub miss : Miss
  pub preference : ℕ
  pub candidate : Candidate

abbrev pub bucket_first : Candidate → ℕ
bucket_first kafka_bucket = 0
bucket_first _ = 1

abbrev pub inbox_last : Candidate → ℕ
inbox_last db_inbox = 1
inbox_last _ = 0

abbrev pub kafka_candidates : List Candidate
kafka_candidates = kafka_bucket ∷ kafka_retry ∷ []

abbrev pub miss_lt : Floats → Miss → Miss → Bool
miss_lt floats infinite b = false
miss_lt floats (rate m) infinite = true
miss_lt floats (rate m) (rate n) = floats.lt m n

-- `<` on keys, and the order by which Python sorts: a key stays before one that is not less.
abbrev pub key_lt : Floats → Key → Key → Bool
key_lt floats a b =
    if miss_lt floats a.miss b.miss
    then true
    else (not (miss_lt floats b.miss a.miss) && ltb a.preference b.preference)

abbrev pub key_le : Floats → Key → Key → Bool
key_le floats a b = not (key_lt floats b a)

module _ (floats : Floats) (results : Candidate → Runs) where
  unfoldable pub key_of : (Candidate → ℕ) → Candidate → Option Key
  unfolding median_miss
  key_of prefer c = do
    m ← median_miss (results c)
    some record { miss = m; preference = prefer c; candidate = c }

  -- A difference with an infinite median is infinite or not a number, and not less than 0.005.
  abbrev pub misses_are_close : Miss → Miss → Bool
  misses_are_close (rate m) (rate n) = floats.is_close m n
  misses_are_close _ _ = false

  -- `[c for c in KAFKA if safe(c)] or KAFKA`
  unfoldable pub kafka_choice : List Candidate
  unfolding safe
  kafka_choice =
      let safe_ones = keep (λ c. safe (results c)) kafka_candidates in
      if is_empty safe_ones then kafka_candidates else safe_ones

  abbrev pub best_of_sorted : List Key → Option Candidate
  best_of_sorted [] = none
  best_of_sorted (a ∷ []) = some a.candidate
  best_of_sorted (a ∷ b ∷ _) =
      some (if misses_are_close a.miss b.miss then kafka_bucket else a.candidate)

  unfoldable pub best_kafka : Option Candidate
  unfolding kafka_choice key_of sort_by
  best_kafka = do
    keys ← map_all (key_of bucket_first) kafka_choice
    best_of_sorted (sort_by (key_le floats) keys)

  unfoldable pub final_choice : Candidate → Option Candidate
  unfolding meets key_of
  final_choice best =
      if meets (results best)
      then some best
      else (if meets (results db_inbox) then some db_inbox else (do
        a ← key_of inbox_last best
        b ← key_of inbox_last db_inbox
        some (if key_le floats a b then best else db_inbox)))

  unfoldable pub pick : Option (Candidate × Candidate)
  unfolding best_kafka final_choice
  pick = do best ← best_kafka; final ← final_choice best; some (best, final)
