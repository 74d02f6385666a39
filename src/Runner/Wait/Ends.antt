-- ===== src/Runner/Wait/Ends.antt =====
-- The loops of experiments/isolation/runner.py that poll (`wait_for`, `_drain`) end in time.
use event_driven_order_syste.Base.{
  ℕ, zero, suc, ◌+◌, ◌*◌, ◌≤◌, ◌<◌, ◌≡◌, refl, ◌⊎◌, inl, inr, Option, none, some, ltb, arith,
  Bool-cases,
}
use event_driven_order_syste.Runner.Wait.{
  Poll, value, empty, raised, Waited, got, timeout, wait_loop, wait_for, Progress, is_drained,
  accepted_of, drain_loop, drain,
}

Poll-cases :
    {A Err : Type 0} (poll : Poll A Err)
    → ((a : A) × (poll ≡ value a)) ⊎ (poll ≡ empty) ⊎ ((e : Err) × (poll ≡ raised e))
Poll-cases (value a) = inl (a, refl)
Poll-cases empty = inr (inl refl)
Poll-cases (raised e) = inr (inr (e, refl))

module _ {A Err : Type 0} (pause slowest : ℕ) (predicate : ℕ → ℕ × Poll A Err)
    (bound : (t : ℕ) → (predicate t).0 ≤ slowest) where
  -- An end: a value that a poll before the deadline gave, or a timeout at the deadline.
  abbrev pub IsEnd : (deadline : ℕ) → Waited A Err → (end : ℕ) → Type 0
  IsEnd deadline (got a) end =
      (t : ℕ) × (t < deadline) × ((predicate t).1 ≡ value a) × (end ≡ t + (predicate t).0)
  IsEnd deadline (timeout last) end = (deadline ≤ end) × (end ≤ deadline + slowest + pause)

  wait_loop_ends :
      (fuel deadline now : ℕ) (last : Option Err)
      → now ≤ deadline + slowest + pause
      → deadline < now + fuel
      → 0 < fuel
      → 0 < pause
      → (r : Waited A Err) × (end : ℕ) × (wait_loop pause predicate fuel deadline now last
          ≡ some (r, end))
        × IsEnd deadline r end
  unfolding wait_loop
  wait_loop_ends zero deadline now last near enough some_fuel pos = absurd (omega arith)
  wait_loop_ends (suc fuel) deadline now last near enough some_fuel pos =
      let later = now + (predicate now).0 + pause in
      elim (Bool-cases (ltb now deadline)) [
        | inr e ↦ rw e (timeout last, now, refl, (ground (arith, e), near))
        | inl e ↦
            let early : now < deadline = ground arith in
            let near' : later ≤ deadline + slowest + pause = omega (arith, bound now) in
            let rest = λ (l : Option Err).
              wait_loop_ends fuel deadline later l near' (omega arith) (omega arith) pos in
            elim (Poll-cases (predicate now).1) [
              | inl p ↦
                  rw (e, p.1) (got p.0, now + (predicate now).0, refl, (now, early, p.1, refl))
              | inr q ↦ elim q [
                | inl p ↦ rw (e, p) (rest last)
                | inr p ↦ rw (e, p.1) (rest (some p.0))
              ]
            ]
      ]

  -- When a poll takes at most `slowest` milliseconds, waiting ends: with the value of a poll that
  -- began before the deadline, or with a timeout that is late by at most one poll and one pause.
  pub wait_for_ends :
      0 < pause
      → (timeout_ms now : ℕ)
      → (r : Waited A Err) × (end : ℕ) × (wait_for pause predicate timeout_ms now ≡ some (r, end))
        × IsEnd (now + timeout_ms) r end
  unfolding wait_for
  wait_for_ends pos timeout_ms now =
      wait_loop_ends (timeout_ms + 1) (now + timeout_ms) now none (omega arith) (omega arith)
        (omega arith) pos

module _ (slowest : ℕ) (progress : ℕ → ℕ × Progress)
    (bound : (t : ℕ) → (progress t).0 ≤ slowest) where
  drain_loop_ends :
      (fuel deadline now : ℕ) (accepted : Option ℕ)
      → now ≤ deadline + slowest + 2000
      → deadline < now + fuel
      → 0 < fuel
      → (r : Option ℕ) × (end : ℕ) × (drain_loop progress fuel deadline now accepted
          ≡ some (r, end))
        × (end ≤ deadline + slowest + 2000)
  unfolding drain_loop
  drain_loop_ends zero deadline now accepted near enough some_fuel = absurd (omega arith)
  drain_loop_ends (suc fuel) deadline now accepted near enough some_fuel =
      let later = now + (progress now).0 + 2000 in
      elim (Bool-cases (ltb now deadline)) [
        | inr e ↦ rw e (accepted, now, refl, near)
        | inl e ↦
            let early : now < deadline = ground arith in
            let near' : later ≤ deadline + slowest + 2000 = omega (arith, bound now) in
            elim (Bool-cases (is_drained progress (progress now).1)) [
              | inl d ↦
                  rw (e, d)
                    (
                      accepted_of progress (progress now).1 accepted,
                      now + (progress now).0,
                      refl,
                      omega arith,
                    )
              | inr d ↦
                  rw (e, d)
                    (drain_loop_ends fuel deadline later
                      (accepted_of progress (progress now).1 accepted) near' (omega arith)
                      (omega arith))
            ]
      ]

  -- The drain of a run ends, late by at most one poll and one pause.
  pub drain_ends :
      (seconds now : ℕ)
      → (r : Option ℕ) × (end : ℕ) × (drain progress seconds now ≡ some (r, end))
        × (end ≤ now + 1000 * seconds + slowest + 2000)
  unfolding drain
  drain_ends seconds now =
      drain_loop_ends (1000 * seconds + 1) (now + 1000 * seconds) now none (omega arith)
        (omega arith) (omega arith)
