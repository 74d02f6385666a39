-- ===== src/Tests/Data.antt =====
-- Test data: one order of one seller, created and cancelled, and a run directory around it.
use event_driven_order_syste.Base.{ℕ, ◌+◌, some, List, [], ◌∷◌, nat_eq, string_eq, pair_eq}
use event_driven_order_syste.Event.{Event}
use event_driven_order_syste.MockApi.Tables.{EffectRow, AttemptRow, empty_database}
use event_driven_order_syste.MockApi.Ledger.{Ledger}
use event_driven_order_syste.MockApi.Handler.{Call, default_policy}
use event_driven_order_syste.MockApi.Decisions.{Turn}
use event_driven_order_syste.RunCheck.Run.{Run, Published, claimed, business_commit}

abbrev pub created : Event
created = record {
  event_id = "e1";
  run_id = "r";
  seller_id = "shop";
  order_id = 7;
  sequence = 1;
  operation = "CREATE";
  occurred_at = 1700000000000;
  schema_version = 1;
  quantity = 2;
  price = 101;
  padding = 3;
}

abbrev pub cancelled : Event
cancelled = record created { event_id = "e2"; sequence = 2; operation = "CANCEL"; price = 102 }

abbrev pub call : Event → (count attempt : ℕ) → Call
call e count attempt = record {
  event = e;
  client = some "a";
  policy = default_policy;
  start_at = 1700000000000;
  count = count;
  attempt = attempt;
}

abbrev pub turn : Call → Turn
turn c = record { call = c; effect_now = 1700000000005; end_now = 1700000000009 }

-- The second event first, then both in order, the first one twice.
abbrev pub turns : List Turn
turns =
    turn (call cancelled 0 1)
    ∷ turn (call created 0 2)
    ∷ turn (call created 1 3)
    ∷ turn (call cancelled 1 4)
    ∷ []

abbrev pub empty_ledger : Ledger
empty_ledger = record {
  effects = [];
  orders = [];
  attempt_counts = [];
  next_attempt = 1;
  next_effect = 1;
  active = [];
  pending = [];
  next_ticket = 0;
  settled = [];
  db = empty_database;
}

abbrev pub row_of : Event → (index : ℕ) → EffectRow
row_of e index = record {
  effect_index = index;
  event_id = e.event_id;
  seller_id = e.seller_id;
  order_id = e.order_id;
  seq = e.sequence;
  operation = e.operation;
  quantity = e.quantity;
  price = e.price;
  occurred_at = e.occurred_at;
  effect_at = 1700000000500;
  payload = e;
}

abbrev pub attempt_of : Event → (id start_at : ℕ) → AttemptRow
attempt_of e id start_at = record {
  id = id;
  event_id = e.event_id;
  seller_id = e.seller_id;
  order_id = e.order_id;
  seq = e.sequence;
  start_at = start_at;
  end_at = some (start_at + 100);
  status = some 200;
  response_lost = some 0;
  client = some "a";
}

abbrev pub sent : Event → Published
sent e = record {
  event_id = e.event_id;
  planned_at = 1700000000000;
  sent_at = 1700000000001;
  status = some 200;
  created_at = some 1700000000002;
}

abbrev pub good_run : Run
good_run = record {
  trace =
      record { planned_offset_ms = 0; phase = "fault"; event = created }
      ∷ record { planned_offset_ms = 2000; phase = "fault"; event = cancelled }
      ∷ [];
  load = sent created ∷ sent cancelled ∷ [];
  effects = row_of cancelled 2 ∷ row_of created 1 ∷ [];
  attempts =
      attempt_of created 1 1700000000100
      ∷ attempt_of created 2 1700000000200
      ∷ attempt_of cancelled 3 1700000000300
      ∷ [];
  open_inbox = [];
  held_permits = [];
  traces = claimed "e1" 1700000000050 1 ∷ business_commit "e1" 1700000000250 (some 1) ∷ [];
  limits = record { global = 4; seller = 2; retry_per_second = 1 };
  end_of_observation = 1700000001000;
}
