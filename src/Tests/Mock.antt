-- ===== src/Tests/Mock.antt =====
-- Requests to the seller API mock (experiments/mock-partner-api/server.py).
use event_driven_order_syste.Base.Dict.{insert, lookup}
use event_driven_order_syste.Base.{
  List, ◌+◌, ◌≡◌, refl, Bool, true, false, none, some, [], ◌∷◌, ◌++◌, arith, nat_eq, string_eq,
  pair_eq,
}
use event_driven_order_syste.Event.{event_eq}
use event_driven_order_syste.MockApi.Tables.{insert_effect}
use event_driven_order_syste.MockApi.Ledger.{Ledger, gather, enqueue, group_of, store, write_round}
use event_driven_order_syste.MockApi.Handler.{
  or_else, start_record, decide, judge, finish, answer, moved,
}
use event_driven_order_syste.MockApi.Decisions.{Turn}
use event_driven_order_syste.MockApi.Decisions.Applied.{AreNext, row_ids, decide_all-AreNext}
use event_driven_order_syste.MockApi.Threads.{System, asleep, arrives, starts, idle, next}
use event_driven_order_syste.MockApi.Threads.Counts.{IsCounted, Reach-IsCounted}
use event_driven_order_syste.MockApi.Handler.{Call, Request, arrive}
use event_driven_order_syste.MockApi.Decisions.{decide_all}
use event_driven_order_syste.MockApi.Decisions.Order.{Numbers, decide_all-Numbers}
use event_driven_order_syste.MockApi.Decisions.Once.{recorded, effects_of, effects_of-decide_all}
use event_driven_order_syste.MockApi.Durable.{
  items_of, Reported, write_round-items_of, write_round-Reported,
}
use event_driven_order_syste.MockApi.Durable.Lost.{answered_without_effect}
use event_driven_order_syste.Tests.Data.{
  turn, cancelled, row_of, call, turns, empty_ledger, created,
}

decide_all-Numbers_example :
    Numbers
      ("shop", 7)
      empty_ledger
      (decide_all turns empty_ledger).0
      (decide_all turns empty_ledger).1
decide_all-Numbers_example = decide_all-Numbers turns empty_ledger ("shop", 7)

effects_of-decide_all_example :
    effects_of "e1" (decide_all turns empty_ledger).0 + recorded "e1" empty_ledger ≡ 1
unfolding decide_all lookup decide judge insert
effects_of-decide_all_example =
    effects_of-decide_all turns empty_ledger "e1" (refl, (refl, (refl, (refl, tt))))

-- The first item is an attempt's start, the second holds the effect.
abbrev queued : Ledger
queued = record empty_ledger {
  pending =
      some (record { ticket = 0; statements = start_record (call created 0 1) ∷ [] })
      ∷ some (record { ticket = 1; statements = insert_effect (row_of created 1) ∷ [] })
      ∷ none
      ∷ [];
  next_ticket = 2;
}

abbrev round_of : Bool → Ledger → Ledger
round_of disk l = or_else (write_round disk l) l

write_round-items_of_example :
    group_of queued ++ items_of (round_of true queued).pending ≡ items_of queued.pending
unfolding write_round
write_round-items_of_example = write_round-items_of true queued (round_of true queued) refl

write_round-Reported_example :
    Reported queued
      (round_of true queued)
      (record { ticket = 1; statements = insert_effect (row_of created 1) ∷ [] })
      (row_of created 1)
unfolding write_round group_of
write_round-Reported_example =
    write_round-Reported true queued (round_of true queued)
      (record { ticket = 1; statements = insert_effect (row_of created 1) ∷ [] }) (row_of created 1)
      refl
      (record {
        front = record { ticket = 0; statements = start_record (call created 0 1) ∷ [] } ∷ [];
        back = [];
        taken = refl;
        before = [];
        after = [];
        written = refl;
      })

abbrev first_done : Ledger
first_done = (decide (call created 0 1) 30 40 empty_ledger).1

abbrev first_lost : Ledger
first_lost =
    round_of false
      (enqueue (decide (call created 0 1) 30 40 empty_ledger).0.statements first_done).1

abbrev resent : Ledger
resent =
    let (d, l') = decide (call created 1 2) 50 60 first_lost in
    round_of true (enqueue d.statements l').1

answered_without_effect_example :
    (finish (call created 1 2) (decide (call created 1 2) 50 60 first_lost).0 true
      ≡ answer "e1" 200 true)
    × (resent.db.effects ≡ [])
unfolding decide judge moved write_round enqueue lookup store insert gather
answered_without_effect_example =
    answered_without_effect (call created 0 1) (call created 1 2) 30 40 50 60 empty_ledger
      first_lost resent refl refl refl refl (omega arith) (omega arith) refl refl

abbrev request : Request
request = record { idempotency_key = some "e1"; client = some "a"; body = created }

abbrev arrived : Call × Ledger
arrived = elim (arrive request [] 1700000000000 empty_ledger) [
  | none ↦ (call created 0 1, empty_ledger)
  | some p ↦ p
]

abbrev one_call : System
one_call = record {
  ledger = (enqueue (start_record arrived.0 ∷ []) arrived.1).1;
  threads = asleep arrived.0 ∷ [];
}

-- One request has arrived and queued its start record.
Reach-IsCounted_example : IsCounted one_call
unfolding arrive
Reach-IsCounted_example = Reach-IsCounted empty_ledger one_call refl (
    next
      (next idle (
        arrives (record { ledger = empty_ledger; threads = [] }) request [] 1700000000000 arrived.0
          arrived.1 refl))
      (starts arrived.1 [] [] arrived.0))

abbrev both : List Turn
both = turn (call created 0 1) ∷ turn (call cancelled 0 2) ∷ []

both-AreNext : AreNext empty_ledger [] both
unfolding lookup
both-AreNext = (
  record { fault = omega arith; fresh = refl; once = refl; number = refl },
  (record { fault = omega arith; fresh = refl; once = refl; number = refl }, tt),
)

decide_all-AreNext_example : row_ids (decide_all both empty_ledger).0 ≡ "e1" ∷ "e2" ∷ []
decide_all-AreNext_example = decide_all-AreNext empty_ledger both both-AreNext
