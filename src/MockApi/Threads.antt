-- ===== src/MockApi/Threads.antt =====
-- The handler threads of experiments/mock-partner-api/server.py in any interleaving: each thread
-- of a POST to `/orders` is between two of its accesses to the ledger, and the writer's rounds
-- come at any time.
pub mod Counts
use event_driven_order_syste.Base.{ℕ, String, Bool, ◌≡◌, Option, some, List, [], ◌∷◌, ◌++◌}
use event_driven_order_syste.Base.Dict.{Dict}
use event_driven_order_syste.MockApi.Ledger.{Ledger, enqueue, write_round}
use event_driven_order_syste.MockApi.Handler.{
  Policy, Request, Call, Decision, arrive, start_record, decide,
}

-- Where a thread is: counted, asleep with its start record queued, or decided.
pub data Thread : Type 0 where
  counted : Call → Thread
  asleep : Call → Thread
  decided : Call → Decision → Thread

pub record System : Type 0 where
  pub ledger : Ledger
  pub threads : List Thread

pub data Step : System → System → Type 0 where
  -- the checks and the first section under the lock
  arrives :
      (s : System) (r : Request) (controls : Dict String Policy) (now : ℕ) (c : Call) (l : Ledger)
      → arrive r controls now s.ledger ≡ some (c, l)
      → Step s (record { ledger = l; threads = counted c ∷ s.threads })
  -- `current.enqueue` of the start record
  starts :
      (l : Ledger) (front back : List Thread) (c : Call)
      → Step
          (record { ledger = l; threads = front ++ counted c ∷ back })
          (record {
            ledger = (enqueue (start_record c ∷ []) l).1;
            threads = front ++ asleep c ∷ back;
          })
  -- the second section under the lock
  decides :
      (l : Ledger) (front back : List Thread) (c : Call) (effect_now end_now : ℕ)
      → Step
          (record { ledger = l; threads = front ++ asleep c ∷ back })
          (record {
            ledger = (decide c effect_now end_now l).1;
            threads = front ++ decided c (decide c effect_now end_now l).0 ∷ back;
          })
  -- `current.write`, whose first part queues the statements
  queues :
      (l : Ledger) (front back : List Thread) (c : Call) (d : Decision)
      → Step
          (record { ledger = l; threads = front ++ decided c d ∷ back })
          (record { ledger = (enqueue d.statements l).1; threads = front ++ back })
  commits :
      (s : System) (disk : Bool) (l : Ledger)
      → write_round disk s.ledger ≡ some l
      → Step s (record { ledger = l; threads = s.threads })

-- What a server can reach that starts with the ledger `l` and without a thread.
pub data Reach (l : Ledger) : System → Type 0 where
  idle : Reach l (record { ledger = l; threads = [] })
  next : {s t : System} → Reach l s → Step s t → Reach l t
