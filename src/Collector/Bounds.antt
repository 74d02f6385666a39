-- ===== src/Collector/Bounds.antt =====
-- The collector (experiments/collector.py) keeps to its limits.
use event_driven_order_syste.Base.{
  ℕ, ◌+◌, ◌≤◌, ◌≡◌, refl, List, [], ◌∷◌, ◌++◌, ltb, leb, arith, inl, inr, Bool-cases,
}
use event_driven_order_syste.Base.Lists.{length, length-append}
use event_driven_order_syste.Collector.{
  Snapshot, Collector, ring_limit, byte_limit, write_item, push, drop_old, keep_item, count_sample,
  mark_detected, capture, collect, collect_all,
}

abbrev pub total_bytes : List Snapshot → ℕ
total_bytes [] = 0
total_bytes (item ∷ items) = item.bytes + total_bytes items

total_bytes-append :
    (xs ys : List Snapshot) → total_bytes (xs ++ ys) ≡ total_bytes xs + total_bytes ys
total_bytes-append [] ys = omega arith
total_bytes-append (x ∷ xs) ys = omega (arith, total_bytes-append xs ys)

-- What holds between two rounds.
pub record IsBounded (s : Collector) : Type 0 where
  pub file : s.io_bytes ≤ byte_limit
  pub written : total_bytes s.observations ≡ s.io_bytes
  pub counted : length s.observations + s.lost ≡ s.samples
  pub memory : length s.ring ≤ ring_limit

length-push :
    (item : Snapshot) (ring : List Snapshot)
    → length ring ≤ ring_limit
    → length (push item ring) ≤ ring_limit
unfolding push
length-push item [] h = omega arith
length-push item (x ∷ ring) h = elim (Bool-cases (leb ring_limit (length (x ∷ ring)))) [
  | inl e ↦ rw e (omega (arith, h, length-append ring (item ∷ [])))
  | inr e ↦ rw e (ground (arith, e, length-append ring (item ∷ [])))
]

length-drop_old : (time : ℕ) (ring : List Snapshot) → length (drop_old time ring) ≤ length ring
unfolding drop_old
length-drop_old time [] = omega arith
length-drop_old time (x ∷ ring) = ground (arith, length-drop_old time ring)

-- The part of a round that writes.
write_item-IsBounded :
    (item : Snapshot) (s : Collector)
    → IsBounded s
    → let s' = write_item item s in
      (s'.io_bytes ≤ byte_limit)
      × (total_bytes s'.observations ≡ s'.io_bytes)
      × (length s'.observations + s'.lost ≡ s.samples + 1)
      × (s'.ring ≡ s.ring)
      × (s'.samples ≡ s.samples)
unfolding write_item
write_item-IsBounded item s h = elim (Bool-cases (ltb byte_limit (s.io_bytes + item.bytes))) [
  | inl e ↦ rw e (h.file, h.written, omega (arith, h.counted), refl, refl)
  | inr e ↦ rw e (
    ground (arith, e),
    omega (arith, h.written, total_bytes-append s.observations (item ∷ [])),
    omega (arith, h.counted, length-append s.observations (item ∷ [])),
    refl,
    refl,
  )
]

-- The rest of a round: it counts the sample and sets the ring.
rest_of_round :
    (interval_ns now : ℕ) (item : Snapshot) (s : Collector)
    → let s' =
        capture item (mark_detected now item (count_sample interval_ns item (keep_item item s))) in
      (s'.io_bytes ≡ s.io_bytes)
      × (s'.observations ≡ s.observations)
      × (s'.lost ≡ s.lost)
      × (s'.samples ≡ s.samples + 1)
      × (s'.ring ≡ drop_old item.time (push item s.ring))
unfolding capture mark_detected count_sample keep_item
rest_of_round interval_ns now item s = ground arith

collect-IsBounded :
    (interval_ns now : ℕ) (item : Snapshot) (s : Collector)
    → IsBounded s
    → IsBounded (collect interval_ns now item s)
unfolding collect
collect-IsBounded interval_ns now item s h =
    let s₁ = write_item item s in
    let w = write_item-IsBounded item s h in
    let (bytes, lines, lost, samples, ring) = rest_of_round interval_ns now item s₁ in
    let pushed = length-push item s.ring h.memory in
    record {
      file = rw bytes w.0;
      written = rw (bytes, lines) w.1;
      counted = rw (lines, lost) (omega (arith, w, samples));
      memory =
          rw ring (rw w.3 (omega (arith, pushed, length-drop_old item.time (push item s.ring))));
    }

-- Whatever the samples are, the observation file stays within 8 MiB and its size is known, every
-- sample is written or counted as lost, and the ring holds at most 120 samples.
pub collect_all-IsBounded :
    (interval_ns : ℕ) (items : List (ℕ × Snapshot)) (s : Collector)
    → IsBounded s
    → IsBounded (collect_all interval_ns items s)
unfolding collect_all
collect_all-IsBounded interval_ns [] s h = h
collect_all-IsBounded interval_ns ((now, item) ∷ rest) s h =
    collect_all-IsBounded interval_ns rest (collect interval_ns now item s)
      (collect-IsBounded interval_ns now item s h)
