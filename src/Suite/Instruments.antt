-- ===== src/Suite/Instruments.antt =====
-- The verdicts of the instrument checks (`g0`, `g0_source` and `g0_mock` of
-- experiments/isolation/suite.py), on the records that the direct loads leave.
pub mod Passed
use event_driven_order_syste.Base.{
  ℕ, ◌+◌, Bool, true, false, ◌&&◌, Option, none, some, List, [], ◌∷◌, map, ◌==◌, nat_eq,
  if◌then◌else◌, not,
}
use event_driven_order_syste.Base.Int.{ℤ, sub_ℕ, pos, ltb_ℤ}
use event_driven_order_syste.Base.Lists.{length, count_if, keep, all}
use event_driven_order_syste.RunCheck.Latency.{signed_pct}
use event_driven_order_syste.RunCheck.Stats.{q99}
use event_driven_order_syste.RunCheck.Run.{is_status}

-- A line of load.jsonl.
pub record Sent : Type 0 where
  pub planned_at : ℕ
  pub sent_at : ℕ
  pub done_at : ℕ
  pub status : Option ℕ

abbrev pub normal_delay_ms : ℕ
normal_delay_ms = 20

abbrev pub is_ok : Sent → Bool
is_ok r = is_status 200 r.status

-- `value <= limit`; None raises a TypeError, which the check turns into a failure.
abbrev pub is_at_most : ℕ → Option ℤ → Bool
is_at_most limit none = false
is_at_most limit (some v) = not (ltb_ℤ (pos limit) v)

-- A result of an instrument check with its verdict.
pub record Result : Type 0 where
  pub events : ℕ
  pub fine : ℕ
  pub p99_ms : Option ℤ
  pub passed : Bool

abbrev pub late_ms : Sent → ℤ
late_ms r = sub_ℕ r.sent_at r.planned_at

abbrev pub client_extra_ms : Sent → ℤ
client_extra_ms r = sub_ℕ r.done_at (r.sent_at + normal_delay_ms)

-- `published` is the sum of the end offsets of the topic.
unfoldable pub g0_source : (records : List Sent) (published : ℕ) → Result
unfolding signed_pct
g0_source records published =
    let accepted = count_if is_ok records in
    let late = signed_pct (map late_ms records) q99 in
    record {
      events = length records;
      fine = accepted;
      p99_ms = late;
      passed = accepted == length records && published == accepted && is_at_most 10 late;
    }

-- `effects` is the number of effects of the mock's snapshot.
unfoldable pub g0_mock : (records : List Sent) (effects : ℕ) → Result
unfolding signed_pct
g0_mock records effects =
    let ok = count_if is_ok records in
    let extra = signed_pct (map client_extra_ms (keep is_ok records)) q99 in
    record {
      events = length records;
      fine = ok;
      p99_ms = extra;
      passed = ok == length records && effects == ok && is_at_most 5 extra;
    }

-- `all(r.get('passed') for r in results.values())`: the four checks.
unfoldable pub g0 : (checker source mock observer : Bool) → Bool
g0 checker source mock observer = all (λ b. b) (checker ∷ source ∷ mock ∷ observer ∷ [])
