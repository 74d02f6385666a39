-- ===== src/Load/Pool.antt =====
-- `main` of experiments/isolation/load.py and the loop of its sender threads: the main thread puts
-- the planned entries on the queue, then one None for each sender, and joins the senders. The
-- threads take their steps in any order.
pub mod Ends
pub mod Joined
use event_driven_order_syste.Base.{ℕ, suc, ◌+◌, map, Option, none, some, List, [], ◌∷◌, ◌++◌}
use event_driven_order_syste.Event.{Event}

-- A line of the trace, and what the main thread puts for it.
pub record TraceEntry : Type 0 where
  pub planned_offset_ms : ℕ
  pub event : Event

pub record WorkItem : Type 0 where
  pub planned_at : ℕ
  pub event : Event

-- `planned = a.start_at + entry['plannedOffsetMs']`
abbrev pub work_of : (start_at : ℕ) → List TraceEntry → List WorkItem
work_of start_at entries =
    map
      (λ (e : TraceEntry). record { planned_at = start_at + e.planned_offset_ms; event = e.event })
      entries

-- `todo` are the entries that the main thread has still to put and `marks` the Nones; `idle`
-- senders are at `work.get`, `busy` are the entries being sent and `gone` the senders that have
-- returned; `results` is the shared list.
pub record Pool : Type 0 where
  pub todo : List WorkItem
  pub marks : ℕ
  pub queue : List (Option WorkItem)
  pub idle : ℕ
  pub busy : List WorkItem
  pub gone : ℕ
  pub results : List WorkItem

pub data Step : Pool → Pool → Type 0 where
  -- `work.put((planned, entry))`
  puts_entry :
      (s : Pool) (x : WorkItem) (todo : List WorkItem)
      → Step
          (record s { todo = x ∷ todo })
          (record s { todo = todo; queue = s.queue ++ some x ∷ [] })
  -- `work.put(None)`, after the loop over the entries
  puts_none :
      (s : Pool) (marks : ℕ)
      → Step
          (record s { todo = []; marks = suc marks })
          (record s { todo = []; marks = marks; queue = s.queue ++ none ∷ [] })
  -- `item = self.work.get()`
  gets_entry :
      (s : Pool) (x : WorkItem) (queue : List (Option WorkItem)) (idle : ℕ)
      → Step
          (record s { queue = some x ∷ queue; idle = suc idle })
          (record s { queue = queue; idle = idle; busy = x ∷ s.busy })
  -- `if item is None: return`
  gets_none :
      (s : Pool) (queue : List (Option WorkItem)) (idle : ℕ)
      → Step
          (record s { queue = none ∷ queue; idle = suc idle })
          (record s { queue = queue; idle = idle; gone = suc s.gone })
  -- `self.results.append(record)`
  appends :
      (s : Pool) (front back : List WorkItem) (x : WorkItem)
      → Step
          (record s { busy = front ++ x ∷ back })
          (record s { busy = front ++ back; idle = suc s.idle; results = s.results ++ x ∷ [] })

-- `main` when it has started the senders.
abbrev pub started_pool : (work : List WorkItem) (threads : ℕ) → Pool
started_pool work threads = record {
  todo = work;
  marks = threads;
  queue = [];
  idle = threads;
  busy = [];
  gone = 0;
  results = [];
}

pub data Reached (work : List WorkItem) (threads : ℕ) : Pool → Type 0 where
  idle_pool : Reached work threads (started_pool work threads)
  next_pool : {s t : Pool} → Reached work threads s → Step s t → Reached work threads t
