-- ===== src/Runner/Wait.antt =====
-- `wait_for` of experiments/isolation/runner.py and of experiments/run.py, which differ in the
-- pause between two polls (250 ms and 100 ms), and `_drain`, which polls every 2 s.
pub mod Ends
use event_driven_order_syste.Base.{
  ℕ, zero, suc, ◌+◌, ◌-◌, ◌*◌, ◌/◌, Bool, true, false, Option, none, some, List, ltb, leb, ◌&&◌,
  if◌then◌else◌,
}

-- One poll: a true value, a false one, or an exception.
pub data Poll (A Err : Type 0) : Type 0 where
  value : A → Poll A Err
  empty : Poll A Err
  raised : Err → Poll A Err

-- What the caller gets: the value, or the TimeoutError with the last exception of a poll.
pub data Waited (A Err : Type 0) : Type 0 where
  got : A → Waited A Err
  timeout : Option Err → Waited A Err

-- `predicate` says of a time the milliseconds that the poll takes and what it gives.
module _ {A Err : Type 0} (pause : ℕ) (predicate : ℕ → ℕ × Poll A Err) where
  -- The loop, with the time at which it ends; `none` when the fuel is used up.
  unfoldable pub wait_loop : ℕ → (deadline now : ℕ) → Option Err → Option (Waited A Err × ℕ)
  wait_loop zero deadline now last = none
  wait_loop (suc fuel) deadline now last =
      if ltb now deadline
      then (let (took, poll) = predicate now in
          elim poll [
            | value a ↦ some (got a, now + took)
            | empty ↦ wait_loop fuel deadline (now + took + pause) last
            | raised e ↦ wait_loop fuel deadline (now + took + pause) (some e)
          ])
      else some (timeout last, now)

  -- Every turn takes the pause, so a turn for each millisecond is enough.
  unfoldable pub wait_for : (timeout_ms now : ℕ) → Option (Waited A Err × ℕ)
  unfolding wait_loop
  wait_for timeout_ms now = wait_loop (timeout_ms + 1) (now + timeout_ms) now none

-- A poll of `_drain`: the accepted events and the effects of the seller, or an exception after
-- the accepted ones are read, or before.
pub data Progress : Type 0 where
  counts : (accepted effects : ℕ) → Progress
  only_accepted : (accepted : ℕ) → Progress
  unknown : Progress

module _ (progress : ℕ → ℕ × Progress) where
  abbrev pub accepted_of : Progress → Option ℕ → Option ℕ
  accepted_of (counts accepted effects) _ = some accepted
  accepted_of (only_accepted accepted) _ = some accepted
  accepted_of unknown last = last

  abbrev pub is_drained : Progress → Bool
  is_drained (counts accepted effects) = ltb 0 accepted && leb accepted effects
  is_drained _ = false

  unfoldable pub drain_loop : ℕ → (deadline now : ℕ) → Option ℕ → Option (Option ℕ × ℕ)
  drain_loop zero deadline now accepted = none
  drain_loop (suc fuel) deadline now accepted =
      if ltb now deadline
      then (let (took, p) = progress now in
          let accepted' = accepted_of p accepted in
          let rest = drain_loop fuel deadline (now + took + 2000) accepted' in
          if is_drained p then some (accepted', now + took) else rest)
      else some (accepted, now)

  -- The accepted events that `drain_done` records, with the time of the end.
  unfoldable pub drain : (seconds now : ℕ) → Option (Option ℕ × ℕ)
  unfolding drain_loop
  drain seconds now = drain_loop (1000 * seconds + 1) (now + 1000 * seconds) now none
