-- ===== src/LocalRun/Dataset.antt =====
-- `seller_for` and `dataset` of experiments/run.py.
pub mod Share
use event_driven_order_syste.Base.{
  ℕ, zero, suc, ◌+◌, ◌-◌, ◌*◌, ◌/◌, ◌%◌, String, Bool, true, false, List, [], ◌∷◌, ◌++◌, map, ◌==◌,
  nat_eq, if◌then◌else◌,
}
use event_driven_order_syste.Base.Lists.{range_from}
use event_driven_order_syste.Event.{Event}

pub data Workload : Type 0 where
  pair market sweep : Workload

abbrev pub market_sellers : ℕ
market_sellers = 20

abbrev pub market_orders : ℕ
market_orders = 300

-- `name n` is the two-digit name f's{n:02d}'.
module _ (name : ℕ → String) where
  unfoldable pub seller_for : ℕ → Workload → String
  seller_for i pair = if i % 2 == 0 then "slow" else "normal"
  seller_for i market = if i % 5 == 0 then "slow" else name (i % (market_sellers - 1) + 1)
  seller_for i sweep = if i % 5 == 0 then "slow" else name (i % (market_sellers - 1) + 1)

  abbrev pub operation_name : ℕ → String
  operation_name seq = if seq == 1 then "CREATE" else (if seq == 2 then "CHANGE" else "CANCEL")

  -- `event_id i seq` is the uuid of the run's name, the order and the number; `run_id` is the tail
  -- of 64 characters; `now` is the clock at the event.
  module _ (event_id : (i seq : ℕ) → String) (run_id : String) (now : (i seq : ℕ) → ℕ) where
    unfoldable pub dataset_event : Workload → (seq i : ℕ) → Event
    unfolding seller_for
    dataset_event workload seq i = record {
      event_id = event_id i seq;
      run_id = run_id;
      seller_id = seller_for i workload;
      order_id = i + 1;
      sequence = seq;
      operation = operation_name seq;
      occurred_at = now i seq;
      schema_version = 1;
      quantity = seq + 1;
      price = 100 + seq;
      padding = 0;
    }

    unfoldable pub phases_from : Workload → (orders seq : ℕ) → (operations : ℕ) → List Event
    unfolding dataset_event
    phases_from workload orders seq zero = []
    phases_from workload orders seq (suc operations) =
        map (dataset_event workload seq) (range_from 0 orders)
        ++ phases_from workload orders (seq + 1) operations

    -- Each phase goes over all orders.
    unfoldable pub dataset : (orders operations : ℕ) → Workload → List Event
    unfolding phases_from
    dataset orders operations workload = phases_from workload orders 1 operations
