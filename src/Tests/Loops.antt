-- ===== src/Tests/Loops.antt =====
-- The alert rule and the load generator (experiments/isolation).
use event_driven_order_syste.Base.{ℕ, zero, suc, ◌≡◌, refl, Option, none, some, List, [], ◌∷◌}
use event_driven_order_syste.Observer.{
  Alert, Tick, paused, sampled, Source, start, watch, watch_all, is_valid, has_overdue,
}
use event_driven_order_syste.Observer.Rule.{rule, shown, last_shown, watch-rule}
use event_driven_order_syste.Load.{Target, Outcome, raised, replied, run}
use event_driven_order_syste.Load.Attempts.{IsSent, run-IsSent}
use event_driven_order_syste.Base.{Bool, ◌==◌, nat_eq}
use event_driven_order_syste.Base.Lists.{count_if}
use event_driven_order_syste.Event.{Event}
use event_driven_order_syste.Load.Pool.{
  TraceEntry, WorkItem, Pool, work_of, started_pool, Reached, idle_pool, next_pool, puts_entry,
  puts_none, gets_entry, gets_none, appends,
}
use event_driven_order_syste.Load.Pool.Joined.{results-AreSent}
use event_driven_order_syste.Load.Pool.Ends.{Progresses, pool_ends}

abbrev overdue_at : ℕ → Option Source
overdue_at t = some (record { snapshot_at = t; overdue = 0 ∷ 3 ∷ [] })

abbrev ticks : List Tick
ticks = sampled 1000 none ∷ sampled 2000 (overdue_at 1900) ∷ paused ∷ []

-- The second overdue sample after a failed one raises the alert.
watch-rule_example :
    (watch (sampled 4000 (overdue_at 3900)) (watch_all ticks start)).0 ≡ some Alert.alert
unfolding rule shown last_shown is_valid has_overdue
watch-rule_example = watch-rule ticks 4000 (overdue_at 3900)

abbrev answers : ℕ → Outcome
answers zero = raised
answers (suc zero) = raised
answers (suc (suc zero)) = replied 503 none
answers (suc (suc (suc n))) = replied 200 (some 17)

run-IsSent_example : IsSent Target.source answers 1 5 (run Target.source answers)
run-IsSent_example = run-IsSent Target.source answers

abbrev sent_event : Event
sent_event = record {
  event_id = "e1";
  run_id = "r";
  seller_id = "S";
  order_id = 7;
  sequence = 1;
  operation = "CREATE";
  occurred_at = 0;
  schema_version = 1;
  quantity = 2;
  price = 100;
  padding = 0;
}

abbrev trace_entries : List TraceEntry
trace_entries = record { planned_offset_ms = 500; event = sent_event } ∷ []

abbrev sent_item : WorkItem
sent_item = record { planned_at = 1500; event = sent_event }

abbrev sending : Pool
sending = record {
  todo = [];
  marks = 1;
  queue = [];
  idle = 0;
  busy = sent_item ∷ [];
  gone = 0;
  results = [];
}

sending-Reached : Reached (work_of 1000 trace_entries) 1 sending
sending-Reached =
    next_pool (next_pool idle_pool (puts_entry (started_pool [] 1) sent_item []))
      (gets_entry (started_pool [] 1) sent_item [] 0)

abbrev returned : Pool
returned = record {
  todo = [];
  marks = 0;
  queue = [];
  idle = 0;
  busy = [];
  gone = 1;
  results = sent_item ∷ [];
}

returned-Reached : Reached (work_of 1000 trace_entries) 1 returned
returned-Reached =
    next_pool
      (next_pool (next_pool sending-Reached (appends sending [] [] sent_item)) (
        puts_none
          (record {
            todo = [];
            marks = 1;
            queue = [];
            idle = 1;
            busy = [];
            gone = 0;
            results = sent_item ∷ [];
          })
          0))
      (gets_none
        (record {
          todo = [];
          marks = 0;
          queue = [];
          idle = 0;
          busy = [];
          gone = 0;
          results = sent_item ∷ [];
        })
        [] 0)

abbrev is_of_order_7 : WorkItem → Bool
is_of_order_7 item = item.event.order_id == 7

-- The one entry is sent once.
results-AreSent_example :
    count_if is_of_order_7 returned.results ≡ count_if is_of_order_7 (work_of 1000 trace_entries)
results-AreSent_example =
    results-AreSent 1000 trace_entries 0 returned returned-Reached refl is_of_order_7

-- The sender is busy, so it can go on.
pool_ends_example : Progresses 1 sending
pool_ends_example = pool_ends (work_of 1000 trace_entries) 1 sending sending-Reached
