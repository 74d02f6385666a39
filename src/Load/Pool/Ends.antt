-- ===== src/Load/Pool/Ends.antt =====
-- `main` of experiments/isolation/load.py joins its senders: no thread waits for ever.
use event_driven_order_syste.Base.{
  ℕ, zero, suc, ◌+◌, ◌*◌, ◌≡◌, inl, inr, ◌⊎◌, Option, none, some, List, [], ◌∷◌, arith,
}
use event_driven_order_syste.Base.Lists.{length, length-append}
use event_driven_order_syste.Base.Opt.{present}
use event_driven_order_syste.Load.Pool.{
  WorkItem, Pool, Step, puts_entry, puts_none, gets_entry, gets_none, appends, Reached,
}
use event_driven_order_syste.Load.Pool.Joined.{
  nones, nones-append, length-present, Reached-IsBalanced,
}

-- What the threads have still to do.
abbrev pub steps_left : Pool → ℕ
steps_left s =
    3 * length s.todo + 2 * s.marks + 2 * length (present s.queue) + nones s.queue + length s.busy

step-steps_left : (s t : Pool) → Step s t → steps_left t + 1 ≡ steps_left s
step-steps_left s t (puts_entry u x todo) =
    omega (arith, nones-append u.queue (some x ∷ []), length-present u.queue (some x ∷ []))
step-steps_left s t (puts_none u marks) =
    omega (arith, nones-append u.queue (none ∷ []), length-present u.queue (none ∷ []))
step-steps_left s t (gets_entry u x queue idle) = omega arith
step-steps_left s t (gets_none u queue idle) = omega arith
step-steps_left s t (appends u front back x) =
    omega (arith, length-append front (x ∷ back), length-append front back)

abbrev pool :
    List WorkItem → ℕ → List (Option WorkItem) → ℕ → List WorkItem → ℕ → List WorkItem → Pool
pool todo marks queue idle busy gone results = record {
  todo = todo;
  marks = marks;
  queue = queue;
  idle = idle;
  busy = busy;
  gone = gone;
  results = results;
}

-- The next step: the main thread's, a busy sender's, or that of a sender at `work.get`.
enabled :
    (todo : List WorkItem) (marks : ℕ) (queue : List (Option WorkItem)) (idle : ℕ)
    (busy : List WorkItem) (gone threads : ℕ) (results : List WorkItem)
    → marks + nones queue ≡ idle + length busy
    → idle + length busy + gone ≡ threads
    → (gone ≡ threads) ⊎ ((t : Pool) × Step (pool todo marks queue idle busy gone results) t)
enabled (x ∷ todo) marks queue idle busy gone threads results h k =
    inr (_, puts_entry (pool [] marks queue idle busy gone results) x todo)
enabled [] (suc marks) queue idle busy gone threads results h k =
    inr (_, puts_none (pool [] marks queue idle busy gone results) marks)
enabled [] zero queue idle (x ∷ busy) gone threads results h k =
    inr (_, appends (pool [] 0 queue idle [] gone results) [] busy x)
enabled [] zero queue zero [] gone threads results h k = inl (omega arith)
enabled [] zero [] (suc idle) [] gone threads results h k = absurd (omega arith)
enabled [] zero (some x ∷ queue) (suc idle) [] gone threads results h k =
    inr (_, gets_entry (pool [] 0 queue idle [] gone results) x queue idle)
enabled [] zero (none ∷ queue) (suc idle) [] gone threads results h k =
    inr (_, gets_none (pool [] 0 queue idle [] gone results) queue idle)

-- All the senders have returned, or a thread can take a step; and each step leaves fewer to take.
abbrev pub Progresses : (threads : ℕ) → Pool → Type 0
Progresses threads s =
    ((s.gone ≡ threads) ⊎ ((t : Pool) × Step s t))
    × ((t : Pool) → Step s t → steps_left t + 1 ≡ steps_left s)

-- In every pool that can be reached, all the senders have returned, or a thread can take a step,
-- and each step leaves one less to take: however the threads take their steps, `join` returns.
pub pool_ends :
    (work : List WorkItem) (threads : ℕ) (s : Pool) → Reached work threads s → Progresses threads s
pool_ends work threads s r =
    let b = Reached-IsBalanced work threads s r in
    (
      enabled s.todo s.marks s.queue s.idle s.busy s.gone threads s.results b.balance b.senders,
      step-steps_left s,
    )
