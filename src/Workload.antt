-- ===== src/Workload.antt =====
-- The planned workload (`build` and `phase_bounds` of experiments/isolation/trace.py). The random
-- draws and the hash of the event id are parameters: of each phase the arrival times that the
-- exponential draws give, in whole milliseconds (`int(t * 1000)`), and a seller for each order.
pub mod Orders
pub mod Phases
use event_driven_order_syste.Base.{
  ℕ, ◌+◌, ◌-◌, ◌*◌, ◌%◌, max, String, Bool, true, false, ◌&&◌, ◌||◌, Option, none, some, List, [],
  ◌∷◌, ◌++◌, map, leb, ltb, ◌==◌, nat_eq, string_eq, if◌then◌else◌,
}
use event_driven_order_syste.Base.Dict.{Dict, insert}
use event_driven_order_syste.Base.Sort.{sort_by}
use event_driven_order_syste.Event.{Event}
use event_driven_order_syste.RunCheck.Run.{Planned}

-- `OFFSETS_MS[seq - 1]` and `OPERATIONS[seq - 1]` for the sequence numbers 1, 2 and 3.
pub data Step : Type 0 where
  create change cancel : Step

abbrev pub sequence_of : Step → ℕ
sequence_of create = 1
sequence_of change = 2
sequence_of cancel = 3

abbrev pub offset_ms : Step → ℕ
offset_ms create = 0
offset_ms change = 2000
offset_ms cancel = 5000

abbrev pub operation_of : Step → String
operation_of create = "CREATE"
operation_of change = "CHANGE"
operation_of cancel = "CANCEL"

abbrev pub event_bytes : ℕ
event_bytes = 1024

-- The draws of one run. `size` is the length of an event's JSON text before the padding.
pub record Draws : Type 0 where
  pub seller : (order_id : ℕ) → String
  pub event_id : (order_id sequence : ℕ) → String
  pub run_id : String
  pub size : Event → ℕ

-- `padded`: as many characters as the event is short of `event_bytes`.
unfoldable pub padded : (Event → ℕ) → Event → Event
padded size e = record e { padding = event_bytes - size e }

unfoldable pub plan : Draws → (phase : String) (t order_id : ℕ) → Step → Planned
unfolding padded
plan draws phase t order_id step = record {
  planned_offset_ms = t + offset_ms step;
  phase = phase;
  event = padded draws.size (record {
    event_id = draws.event_id order_id (sequence_of step);
    run_id = draws.run_id;
    seller_id = draws.seller order_id;
    order_id = order_id;
    sequence = sequence_of step;
    operation = operation_of step;
    occurred_at = 1;
    schema_version = 1;
    quantity = sequence_of step + 1;
    price = 100 + sequence_of step;
    padding = 0;
  });
}

-- The three events of the order that arrives at `t`.
unfoldable pub plan_order : Draws → (phase : String) (t order_id : ℕ) → List Planned
plan_order draws phase t order_id =
    plan draws phase t order_id create
    ∷ plan draws phase t order_id change
    ∷ plan draws phase t order_id cancel
    ∷ []

-- An arrival: the name of its phase and its time.
abbrev pub Arrival : Type 0
Arrival = String × ℕ

-- The loop over the arrivals of all phases, in their order; `order_id` counts them.
unfoldable pub plan_all : Draws → List Arrival → (order_id : ℕ) → List Planned
plan_all draws [] order_id = []
plan_all draws ((phase, t) ∷ rest) order_id =
    plan_order draws phase t (order_id + 1) ++ plan_all draws rest (order_id + 1)

-- The order of the triples (offset, order, sequence).
abbrev pub planned_le : Planned → Planned → Bool
planned_le a b =
    if ltb a.planned_offset_ms b.planned_offset_ms
    then true
    else (a.planned_offset_ms == b.planned_offset_ms
        && (if ltb a.event.order_id b.event.order_id
            then true
            else (a.event.order_id == b.event.order_id && leb a.event.sequence b.event.sequence)))

unfoldable pub build : Draws → List Arrival → List Planned
unfolding plan_all
build draws arrivals = sort_by planned_le (plan_all draws arrivals 0)

-- A phase: its name, its seconds and its rate, which is not used here.
pub record Phase : Type 0 where
  pub name : String
  pub seconds : ℕ

unfoldable pub bounds_from : List Phase → (start : ℕ) → Dict String (ℕ × ℕ) → Dict String (ℕ × ℕ)
bounds_from [] start bounds = bounds
bounds_from (p ∷ ps) start bounds =
    bounds_from ps (start + p.seconds)
      (insert p.name (start * 1000, (start + p.seconds) * 1000) bounds)

unfoldable pub phase_bounds : List Phase → Dict String (ℕ × ℕ)
unfolding bounds_from
phase_bounds phases = bounds_from phases 0 []
