-- ===== src/EndToEnd.antt =====
-- What the end-to-end run (`run` of experiments/end_to_end.py) demands of the events that the order
-- service emits, and of the final rows of the source databases.
pub mod Contract
pub mod Once
use event_driven_order_syste.Base.{
  ℕ, ◌+◌, ◌*◌, ◌%◌, String, Bool, true, false, not, ◌&&◌, Option, none, some, List, [], ◌∷◌, ◌++◌,
  map, ◌==◌, nat_eq, string_eq, pair_eq, if◌then◌else◌,
}
use event_driven_order_syste.Base.Dict.{Dict, lookup, insert}
use event_driven_order_syste.Base.Lists.{length, all, any}
use event_driven_order_syste.Base.Opt.{◌>>=◌}
use event_driven_order_syste.Event.{Event, event_eq}

-- `{o['orderId']: 'slow' if i % 2 == 0 else 'normal' for i, o in enumerate(orders)}`
unfoldable pub source_sellers : (i : ℕ) → (orders : List ℕ) → Dict ℕ String → Dict ℕ String
source_sellers i [] d = d
source_sellers i (o ∷ orders) d =
    source_sellers (i + 1) orders (insert o (if i % 2 == 0 then "slow" else "normal") d)

-- `{1: 'CREATE', 2: 'CHANGE', 3: 'CANCEL'}[seq]`: another number is a KeyError.
abbrev pub operation_at : ℕ → Option String
operation_at seq =
    if seq == 1
    then some "CREATE"
    else (if seq == 2 then some "CHANGE" else (if seq == 3 then some "CANCEL" else none))

-- The event that the HTTP input asks for.
unfoldable pub wanted : Dict ℕ String → (run_id : String) → Event → Option Event
wanted sellers run_id emitted = do
  operation ← operation_at emitted.sequence
  seller ← lookup emitted.order_id sellers
  some (record emitted {
    seller_id = seller;
    run_id = run_id;
    operation = operation;
    quantity = if emitted.sequence == 1 then 2 else 3;
    price = if emitted.sequence == 1 then 100 else 120;
    schema_version = 1;
  })

-- The loop over the emitted events; an event that differs from the wanted one ends the run.
unfoldable pub expected : Dict ℕ String → (run_id : String) → List Event → Option (List Event)
unfolding wanted
expected sellers run_id [] = some []
expected sellers run_id (emitted ∷ records) = do
  want ← wanted sellers run_id emitted
  rest ← expected sellers run_id records
  (if emitted == want then some (want ∷ rest) else none)

abbrev pub Pair : Type 0
Pair = ℕ × ℕ

abbrev pub is_pair_in : List Pair → Pair → Bool
is_pair_in pairs p = any (λ q. q == p) pairs

abbrev pub keys_of : List Event → List Pair
keys_of events = map (λ (e : Event). (e.order_id, e.sequence)) events

-- `{(o['orderId'], s) for o in orders for s in [1, 2, 3]}`
abbrev pub operations_of : List ℕ → List Pair
operations_of [] = []
operations_of (o ∷ orders) = (o, 1) ∷ (o, 2) ∷ (o, 3) ∷ operations_of orders

-- Equality of the two sets.
abbrev pub same_set : List Pair → List Pair → Bool
same_set ps qs = all (is_pair_in qs) ps && all (is_pair_in ps) qs

-- The expected events, when the run goes on.
unfoldable pub contract : (orders : List ℕ) (run_id : String) → List Event → Option (List Event)
unfolding source_sellers expected
contract orders run_id records = do
  events ← expected (source_sellers 0 orders []) run_id records
  (if length events == 18 && same_set (keys_of events) (operations_of orders)
      then some events
      else none)

-- A row of stock_history and one of orders; `delta` is the number of units taken off.
pub record StockRow : Type 0 where
  pub order_id : ℕ
  pub taken : ℕ

pub record OrderState : Type 0 where
  pub is_cancelled : Bool
  pub partner_sequence : ℕ
  pub quantity : ℕ
  pub price : ℕ

abbrev pub is_final : OrderState → Bool
is_final o = o.is_cancelled && o.partner_sequence == 3 && o.quantity == 3 && o.price == 120

abbrev pub has_id : List ℕ → ℕ → Bool
has_id ns n = any (λ m. m == n) ns

-- Whether neither of the two errors on the source databases is added.
unfoldable pub source_passed :
    (orders : List ℕ) (stock : ℕ) → List StockRow → List OrderState → Bool
source_passed orders stock history final_orders =
    let ids = map (λ (r : StockRow). r.order_id) history in
    stock == 988
    && length history == 6
    && all (λ (r : StockRow). r.taken == 2) history
    && all (has_id ids) orders
    && all (has_id orders) ids
    && all is_final final_orders
