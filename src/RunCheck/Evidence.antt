-- ===== src/RunCheck/Evidence.antt =====
-- The validity of the evidence in `check` (experiments/isolation/check.py): the load generator, the
-- clocks of the hosts, and whether the fault was there.
pub mod Valid
use event_driven_order_syste.Base.{
  ℕ, ◌+◌, ◌-◌, max, String, Bool, true, false, not, ◌&&◌, Option, none, some, List, [], ◌∷◌, map,
  ltb, leb, ◌==◌, string_eq, nat_eq, if◌then◌else◌,
}
use event_driven_order_syste.Base.Int.{ℤ, sub_ℕ}
use event_driven_order_syste.Base.Lists.{count_if, keep}
use event_driven_order_syste.Base.Opt.{present}
use event_driven_order_syste.MockApi.Tables.{AttemptRow}
use event_driven_order_syste.RunCheck.Latency.{signed_pct}
use event_driven_order_syste.RunCheck.Stats.{q99}
use event_driven_order_syste.RunCheck.Run.{Run, Published, is_set, is_status, published}

-- `run['fault']`: when the fault was injected and removed, and at which seller.
pub record Fault : Type 0 where
  pub from : ℕ
  pub to : ℕ
  pub seller : String

-- `max(values, default=None)`
abbrev pub max_default : List ℕ → Option ℕ
max_default [] = none
max_default (x ∷ xs) = elim (max_default xs) [ none ↦ some x | some m ↦ some (max x m) ]

abbrev pub or_zero : Option ℕ → ℕ
or_zero none = 0
or_zero (some n) = n

-- The finished calls of the fault's seller that began in the fault and 3 s before its end.
unfoldable pub is_fault_call : Fault → AttemptRow → Bool
is_fault_call fault a =
    a.seller_id == fault.seller
    && leb fault.from a.start_at
    && ltb (a.start_at + 3000) fault.to
    && is_set a.end_at

abbrev pub is_slow_call : AttemptRow → Bool
is_slow_call a = leb (a.start_at + 2900) (or_zero a.end_at)

unfoldable pub slow_calls : Fault → List AttemptRow → ℕ
unfolding is_fault_call
slow_calls fault attempts = count_if is_slow_call (keep (is_fault_call fault) attempts)

abbrev pub not_200 : Published → Bool
not_200 v = not (is_status 200 v.status)

-- The clock offsets are absolute, in microseconds; None stands for a host without one.
pub record Evidence : Type 0 where
  pub generator_late_p99_ms : Option ℤ
  pub load_failures : ℕ
  pub clock_offset_max_us : Option ℕ
  pub slow_calls : Option ℕ
  pub passed : Bool

abbrev pub clocks_agree : Option ℕ → Bool
clocks_agree none = true
clocks_agree (some m) = leb m 5000

abbrev pub is_fault_applied : Option ℕ → Bool
is_fault_applied none = true
is_fault_applied (some calls) = ltb 0 calls

unfoldable pub evidence : Run → Option Fault → (offsets : List (Option ℕ)) → Evidence
unfolding slow_calls signed_pct published
evidence r fault offsets =
    let values = map (λ (entry : String × Published). entry.1) (published r) in
    let calls : Option ℕ = elim fault [ none ↦ none | some f ↦ some (slow_calls f r.attempts) ] in
    let offset = max_default (present offsets) in
    record {
      generator_late_p99_ms =
          signed_pct (map (λ (v : Published). sub_ℕ v.sent_at v.planned_at) values) q99;
      load_failures = count_if not_200 values;
      clock_offset_max_us = offset;
      slow_calls = calls;
      passed = clocks_agree offset && is_fault_applied calls;
    }
