-- ===== src/LocalRun/Input.antt =====
-- The input loop of `run_case` (experiments/run.py): one batch of events for every tick of 100 ms. The loop
-- sets `occurredAt` of an event just before it is sent: `stamp j` does so with the time read for the
-- event at place `j`.
pub mod Batches
use event_driven_order_syste.Base.{
  ℕ, zero, suc, ◌+◌, ◌-◌, ◌*◌, max, Bool, true, false, not, ◌&&◌, ◌||◌, Option, none, some, List,
  [], ◌∷◌, ◌++◌, ltb, leb, if◌then◌else◌,
}
use event_driven_order_syste.Base.Lists.{length, take}

module _ {A : Type 0} where
  abbrev pub drop : ℕ → List A → List A
  drop zero xs = xs
  drop (suc n) [] = []
  drop (suc n) (x ∷ xs) = drop n xs

  -- `xs[i:j]`
  abbrev pub slice : (i j : ℕ) → List A → List A
  slice i j xs = take (j - i) (drop i xs)

  abbrev pub stamp_from : (stamp : ℕ → A → A) (j : ℕ) → List A → List A
  stamp_from stamp j [] = []
  stamp_from stamp j (x ∷ xs) = stamp j x ∷ stamp_from stamp (j + 1) xs

  -- `for i in range(0, len(xs), per_tick)`: the batches that are sent.
  unfoldable pub batches_from : (stamp : ℕ → A → A) (fuel per_tick i : ℕ) → List A → List (List A)
  batches_from stamp zero per_tick i xs = []
  batches_from stamp (suc fuel) per_tick i xs =
      let rest = batches_from stamp fuel per_tick (i + per_tick) xs in
      if ltb i (length xs) then stamp_from stamp i (slice i (i + per_tick) xs) ∷ rest else []

  -- A turn for each event is enough, since a tick moves on by one at least.
  unfoldable pub batches : (stamp : ℕ → A → A) (per_tick : ℕ) → List A → List (List A)
  unfolding batches_from
  batches stamp per_tick xs = batches_from stamp (length xs) per_tick 0 xs

-- When the turns of the loop begin, each before it sends its batch: `cost n` milliseconds go by in
-- turn `n` before its sleep, and the sleep ends with the tick, or at once when the tick has passed.
unfoldable pub send_times : (cost : ℕ → ℕ) (n left tick now : ℕ) → List ℕ
send_times cost n zero tick now = []
send_times cost n (suc left) tick now =
    now ∷ send_times cost (n + 1) left (tick + 100) (max (tick + 100) (now + cost n))

-- The times of all turns of a loop that begins at `start`.
unfoldable pub input_times : (cost : ℕ → ℕ) (start count : ℕ) → List ℕ
unfolding send_times
input_times cost start count = send_times cost 0 count start start
