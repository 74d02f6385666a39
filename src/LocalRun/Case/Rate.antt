-- ===== src/LocalRun/Case/Rate.antt =====
-- The input of a sweep (experiments/run.py) is as fast as it is asked for.
use event_driven_order_syste.Base.{
  ℕ, zero, suc, ◌+◌, ◌-◌, ◌*◌, ◌/◌, ◌≤◌, ◌<◌, ◌≡◌, max, List, [], ◌∷◌, ltb, leb, if◌then◌else◌,
  arith, inl, inr, Bool-cases,
}
use event_driven_order_syste.Base.Lists.{All, length, count_if}
use event_driven_order_syste.LocalRun.Case.{Scenario, settings}
use event_driven_order_syste.LocalRun.Dataset.{sweep}
use event_driven_order_syste.LocalRun.Input.{batches_from, batches, send_times, input_times}
use event_driven_order_syste.LocalRun.Input.Batches.{concat-batches}

times_le : (a b k : ℕ) → a ≤ b → a * k ≤ b * k
times_le a b zero h = omega arith
times_le a b (suc k) h =
    let left : a * suc k ≡ a + a * k = grind arith in
    let right : b * suc k ≡ b + b * k = grind arith in
    omega (arith, left, right, times_le a b k h, h)

no_batch : (count k : ℕ) → count * k + 1 ≤ k → count * k ≡ 0
no_batch zero k h = omega arith
no_batch (suc count) k h =
    let more : suc count * k ≡ k + count * k = grind arith in absurd (omega (arith, more, h))

module _ {A : Type 0} where
  -- The last batch is the only one that may be short.
  length-batches_from :
      (stamp : ℕ → A → A) (fuel k i : ℕ) (xs : List A)
      → 0 < k
      → length (batches_from stamp fuel k i xs) * k + 1 ≤ (length xs - i) + k
  unfolding batches_from
  length-batches_from stamp zero k i xs pos = omega arith
  length-batches_from stamp (suc fuel) k i xs pos = elim (Bool-cases (ltb i (length xs))) [
    | inl e ↦
        let c = length (batches_from stamp fuel k (i + k) xs) in
        let rest = length-batches_from stamp fuel k (i + k) xs pos in
        let more : suc c * k ≡ k + c * k = grind arith in
        let inside : i < length xs = ground (arith, e) in
        rw e (elim (Bool-cases (ltb (length xs) (i + k))) [
          | inl f ↦
              let past : length xs < i + k = ground (arith, f) in
              let none_left = no_batch c k (omega (arith, rest, past)) in
              omega (arith, more, none_left, inside)
          | inr f ↦
              let fits : i + k ≤ length xs = ground (arith, f) in omega (arith, more, rest, fits)
        ])
    | inr e ↦ rw e (omega arith)
  ]

  -- The events of the turns that have begun at `latest`: no other event has been sent then.
  abbrev pub sent_by : (latest : ℕ) → (times : List ℕ) → List (List A) → ℕ
  sent_by latest [] bs = 0
  sent_by latest (u ∷ us) [] = 0
  sent_by latest (u ∷ us) (b ∷ bs) = (if leb u latest then length b else 0) + sent_by latest us bs

  sent_by-le :
      (latest k : ℕ) (times : List ℕ) (bs : List (List A))
      → All (λ b. (0 < length b) × (length b ≤ k)) bs
      → sent_by latest times bs ≤ k * count_if (λ u. leb u latest) times
  sent_by-le latest k [] bs h = omega arith
  sent_by-le latest k (u ∷ us) [] h = omega arith
  sent_by-le latest k (u ∷ us) (b ∷ bs) h =
      let c = count_if (λ v. leb v latest) us in
      let more : k * (1 + c) ≡ k + k * c = grind arith in
      let rest = sent_by-le latest k us bs h.1 in
      elim (Bool-cases (leb u latest)) [
        | inl e ↦ rw e (omega (arith, more, rest, h.0.1))
        | inr e ↦ let same : 0 + c ≡ c = omega arith in rw (e, same) (omega (arith, rest))
      ]

-- Turn `j` of the loop begins no earlier than 100 ms times `j` after the start.
count_if-send_times :
    (cost : ℕ → ℕ) (n left tick now latest : ℕ)
    → tick ≤ now
    → 100 * count_if (λ u. leb u latest) (send_times cost n left tick now) ≤ (latest + 100) - tick
unfolding send_times
count_if-send_times cost n zero tick now latest h = omega arith
count_if-send_times cost n (suc left) tick now latest h =
    let next = max (tick + 100) (now + cost n) in
    let rest = count_if-send_times cost (n + 1) left (tick + 100) next latest (omega arith) in
    elim (Bool-cases (leb now latest)) [
      | inl e ↦ let due : now ≤ latest = ground (arith, e) in rw e (omega (arith, rest, due, h))
      | inr e ↦ rw e (omega (arith, rest))
    ]

-- A sweep at a rate of ten times a whole number `k` has `10 * k` as its target; its events, three
-- for each order, are sent in at most ten batches for each second of the duration; and however long
-- the calls take, `t` milliseconds after the start the turns that have begun hold at most
-- `k * (t + 100) / 100` events, the rate times the time and one tick.
pub sweep_in_time :
    {A : Type 0} (stamp : ℕ → A → A) (cost : ℕ → ℕ) (scenario : Scenario) (k duration start t : ℕ)
    (xs : List A)
    → 0 < k
    → length xs ≡ 3 * (settings sweep scenario (10 * k) duration).orders
    → let case = settings sweep scenario (10 * k) duration in
      let sent = batches stamp case.per_tick xs in
      (case.target_events_per_second ≡ 10 * k)
      × (length sent ≤ 10 * duration)
      × (100 * sent_by (start + t) (input_times cost start (length sent)) sent ≤ k * (t + 100))
unfolding settings batches input_times
sweep_in_time stamp cost scenario k duration start t xs pos h =
    let tick : max 1 (10 * k / 10) ≡ k = omega arith in
    let sent = batches_from stamp (length xs) k 0 xs in
    let bound = length-batches_from stamp (length xs) k 0 xs pos in
    let times = send_times cost 0 (length sent) start start in
    let c = count_if (λ u. leb u (start + t)) times in
    let paced = count_if-send_times cost 0 (length sent) start start (start + t) (omega arith) in
    let by_tick = sent_by-le (start + t) k times sent (concat-batches stamp k xs pos).1 in
    let scaled = times_le (100 * c) (t + 100) k (omega (arith, paced)) in
    let left : 100 * (k * c) ≡ 100 * c * k = grind arith in
    let right : k * (t + 100) ≡ (t + 100) * k = grind arith in
    rw tick (
      omega arith,
      elim (Bool-cases (ltb (10 * duration) (length sent))) [
        | inl e ↦
            let more : 10 * duration + 1 ≤ length sent = ground (arith, e) in
            let scaled = times_le (10 * duration + 1) (length sent) k more in
            let product : (10 * duration + 1) * k ≡ 10 * k * duration + k = grind arith in
            absurd (omega (arith, scaled, product, bound, h))
        | inr e ↦ ground (arith, e)
      ],
      omega (arith, by_tick, scaled, left, right),
    )
