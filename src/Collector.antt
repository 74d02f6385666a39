-- ===== src/Collector.antt =====
-- The sampling loop of experiments/collector.py: what one round keeps of its sample, in memory and
-- in the files, and the first anomaly. The values that a round reads are the fields of a sample.
pub mod Bounds
use event_driven_order_syste.Base.{
  ℕ, zero, suc, ◌+◌, ◌-◌, ◌*◌, ◌/◌, max, String, Bool, true, false, not, ◌||◌, Option, none, some,
  List, [], ◌∷◌, ◌++◌, map, ltb, leb, ◌==◌, string_eq, if◌then◌else◌,
}
use event_driven_order_syste.Base.Dict.{Dict, insert, counter}
use event_driven_order_syste.Base.Lists.{length, keep, any}
use event_driven_order_syste.Event.{Event}

-- `e['eventId'] not in done`
unfoldable pub missing_events : (done : List String) → List Event → List Event
missing_events done expected =
    keep (λ (e : Event). not (any (λ id. id == e.event_id) done)) expected

-- `ages[seller] = max(ages.get(seller, 0), item['time'] - e['occurredAt'])`; the maximum with a
-- number from 0 on makes the difference one that stops at 0.
unfoldable pub ages_from : (time : ℕ) → List Event → Dict String ℕ → Dict String ℕ
ages_from time [] ages = ages
ages_from time (e ∷ missing) ages =
    ages_from time missing
      (insert e.seller_id (max (counter e.seller_id ages) (time - e.occurred_at)) ages)

-- One sample: `oldest_ms` is missing after an error, `db_waiting` without a service. The duration
-- of the sample is in nanoseconds, and `bytes` is the length of its line.
pub record Snapshot : Type 0 where
  pub time : ℕ
  pub oldest_ms : Option (Dict String ℕ)
  pub db_waiting : Option ℕ
  pub sample_ns : ℕ
  pub bytes : ℕ

-- The part of a sample that the mock's snapshot and the expected events give.
unfoldable pub oldest_of : (time : ℕ) → (done : List String) → List Event → Dict String ℕ
unfolding missing_events ages_from
oldest_of time done expected = ages_from time (missing_events done expected) []

abbrev pub ring_limit : ℕ
ring_limit = 120

abbrev pub byte_limit : ℕ
byte_limit = 8 * 1024 * 1024

abbrev pub window_ms : ℕ
window_ms = 30000

pub record Collector : Type 0 where
  -- oldest first
  pub ring : List Snapshot
  pub detected : Option ℕ
  pub samples : ℕ
  pub lost : ℕ
  pub late_samples : ℕ
  pub missed_schedule_slots : ℕ
  pub io_bytes : ℕ
  -- observations.jsonl, incident-before.json and incident-after.jsonl
  pub observations : List Snapshot
  pub incident_before : Option (List Snapshot)
  pub incident_after : List Snapshot

abbrev pub started : Collector
started = record {
  ring = [];
  detected = none;
  samples = 0;
  lost = 0;
  late_samples = 0;
  missed_schedule_slots = 0;
  io_bytes = 0;
  observations = [];
  incident_before = none;
  incident_after = [];
}

-- The line is written unless the file would grow beyond the limit.
unfoldable pub write_item : Snapshot → Collector → Collector
write_item item s =
    if ltb byte_limit (s.io_bytes + item.bytes)
    then record s { lost = s.lost + 1 }
    else record s { io_bytes = s.io_bytes + item.bytes; observations = s.observations ++ item ∷ [] }

-- `append` on a deque of `maxlen` elements drops the oldest one of a full deque.
unfoldable pub push : Snapshot → List Snapshot → List Snapshot
push item [] = item ∷ []
push item (oldest ∷ rest) =
    if leb ring_limit (length (oldest ∷ rest))
    then rest ++ item ∷ []
    else (oldest ∷ rest) ++ item ∷ []

-- `while ring and item['time'] - ring[0]['time'] > 30000: ring.popleft()`
unfoldable pub drop_old : (time : ℕ) → List Snapshot → List Snapshot
drop_old time [] = []
drop_old time (oldest ∷ rest) =
    let later = drop_old time rest in
    if ltb (oldest.time + window_ms) time then later else oldest ∷ rest

unfoldable pub keep_item : Snapshot → Collector → Collector
unfolding push drop_old
keep_item item s = record s { ring = drop_old item.time (push item s.ring) }

-- The schedule: `interval_ns` is the interval between two samples.
unfoldable pub count_sample : (interval_ns : ℕ) → Snapshot → Collector → Collector
count_sample interval_ns item s =
    if ltb interval_ns item.sample_ns
    then record s {
      late_samples = s.late_samples + 1;
      missed_schedule_slots = s.missed_schedule_slots + (item.sample_ns / interval_ns - 1);
      samples = s.samples + 1;
    }
    else record s { samples = s.samples + 1 }

abbrev pub greatest : Dict String ℕ → ℕ
greatest [] = 0
greatest ((k, v) ∷ d) = max v (greatest d)

abbrev pub oldest_age : Option (Dict String ℕ) → ℕ
oldest_age none = 0
oldest_age (some ages) = greatest ages

abbrev pub is_db_waiting : Option ℕ → Bool
is_db_waiting none = false
is_db_waiting (some n) = ltb 0 n

unfoldable pub is_anomaly : Snapshot → Bool
is_anomaly item = leb 2000 (oldest_age item.oldest_ms) || is_db_waiting item.db_waiting

-- The first anomaly saves the ring. `now` is the clock at this point.
unfoldable pub mark_detected : (now : ℕ) → Snapshot → Collector → Collector
unfolding is_anomaly
mark_detected now item s = elim s.detected [
  | some t ↦ s
  | none ↦
      if is_anomaly item then record s { detected = some now; incident_before = some s.ring } else s
]

-- `detected and item['time'] <= end_capture`: 5 seconds from the detection.
abbrev pub captures : Option ℕ → (time : ℕ) → Bool
captures none time = false
captures (some zero) time = false
captures (some (suc t)) time = leb time (suc t + 5000)

unfoldable pub capture : Snapshot → Collector → Collector
capture item s =
    if captures s.detected item.time
    then record s { incident_after = s.incident_after ++ item ∷ [] }
    else s

-- One round of the loop after its sample is taken.
unfoldable pub collect : (interval_ns now : ℕ) → Snapshot → Collector → Collector
unfolding write_item keep_item count_sample mark_detected capture
collect interval_ns now item s =
    capture item
      (mark_detected now item (count_sample interval_ns item (keep_item item (write_item item s))))

-- The rounds of a run, each with its reading of the clock.
unfoldable pub collect_all : (interval_ns : ℕ) → List (ℕ × Snapshot) → Collector → Collector
unfolding collect
collect_all interval_ns [] s = s
collect_all interval_ns ((now, item) ∷ rest) s =
    collect_all interval_ns rest (collect interval_ns now item s)
