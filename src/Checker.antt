-- ===== src/Checker.antt =====
-- `check` of experiments/checker.py: the exactly-once check of one run, as the list of the errors
-- that it appends, in their order.
pub mod Effects
pub mod Ids
pub mod Loops
pub mod Sound
pub mod Latest
use event_driven_order_syste.Base.{
  ℕ, ◌+◌, ◌≡◌, refl, String, Bool, true, false, not, ◌&&◌, ◌||◌, Option, none, some, List, [], ◌∷◌,
  ◌++◌, map, ltb, leb, ◌==◌, nat_eq, string_eq, pair_eq, if◌then◌else◌,
}
use event_driven_order_syste.Base.Dict.{Dict, lookup, insert, contains, counter}
use event_driven_order_syste.Base.Group.{group_by}
use event_driven_order_syste.Base.Lists.{length, keep, all, any, is_empty}
use event_driven_order_syste.Base.Sort.{sort_by}
use event_driven_order_syste.Event.{Event, event_eq}
use event_driven_order_syste.MockApi.Tables.{EffectRow, AttemptRow, OrderRow}

-- A row of `partner_effect`, the business database's own record.
pub record DbEffect : Type 0 where
  pub event_id : String
  pub run_id : String
  pub seller_id : String
  pub order_id : ℕ
  pub seq : ℕ
  pub operation : String
  pub quantity : ℕ
  pub price : ℕ

-- The mock's snapshot. A payload that is no JSON text is `none`.
pub record Remote : Type 0 where
  pub effects : List (EffectRow × Option Event)
  pub attempts : List AttemptRow
  pub orders : List OrderRow

pub data Label : Type 0 where
  external business_db : Label

pub data Problem : Type 0 where
  duplicate_ids : Problem
  effect_count : (event_id : String) (count : ℕ) → Problem
  unexpected_effect : (event_id : String) → Problem
  payload_mismatch : (event_id field : String) → Problem
  request_mismatch : (event_id : String) → Problem
  request_unavailable : (event_id : String) → Problem
  order_violation : (key : String × ℕ) (sequence wanted : List ℕ) → Problem
  ids_differ : Problem
  db_mismatch : (event_id field : String) → Problem
  keys_differ : Label → Problem
  state_mismatch : Label → (key : String × ℕ) (field : String) → Problem
  request_rejected : Problem

-- `if not ok: errors.append(problem)`
unfoldable pub require : Bool → Problem → List Problem
require true problem = []
require false problem = problem ∷ []

-- The errors of a loop.
unfoldable pub each {ℓ} : {A : Type ℓ} → (A → List Problem) → List A → List Problem
each f [] = []
each f (x ∷ xs) = f x ++ each f xs

unfoldable pub load_expected : List Event → Dict String Event → Dict String Event
load_expected [] d = d
load_expected (e ∷ es) d = load_expected es (insert e.event_id e d)

-- `{e['eventId']: e for e in expected}`
unfoldable pub expected_by_id : List Event → Dict String Event
unfolding load_expected
expected_by_id expected = load_expected expected []

unfoldable pub count_ids : List String → Dict String ℕ → Dict String ℕ
count_ids [] d = d
count_ids (id ∷ ids) d = count_ids ids (insert id (counter id d + 1) d)

-- `collections.Counter` of the event ids
unfoldable pub count_by_id : List String → Dict String ℕ
unfolding count_ids
count_by_id ids = count_ids ids []

abbrev pub effect_ids : Remote → List String
effect_ids remote = map (λ (row : EffectRow × Option Event). row.0.event_id) remote.effects

-- `for event_id in expected_by_id`
unfoldable pub missing_errors : Dict String Event → (count : Dict String ℕ) → List Problem
unfolding require each
missing_errors by_id count =
    each
      (λ (entry : String × Event).
        require (counter entry.0 count == 1) (effect_count entry.0 (counter entry.0 count)))
      by_id

-- `for event_id in count.keys() - expected_by_id.keys()`
unfoldable pub extra_errors : Dict String Event → (count : Dict String ℕ) → List Problem
unfolding require each
extra_errors by_id count =
    each (λ (entry : String × ℕ). require (contains entry.0 by_id) (unexpected_effect entry.0))
      count

unfoldable pub count_errors : List Event → Remote → List Problem
unfolding expected_by_id count_by_id missing_errors extra_errors
count_errors expected remote =
    let by_id = expected_by_id expected in
    let count = count_by_id (effect_ids remote) in
    missing_errors by_id count ++ extra_errors by_id count

unfoldable pub field_errors : EffectRow → Event → List Problem
unfolding require
field_errors row e =
    require (row.seller_id == e.seller_id) (payload_mismatch row.event_id "seller_id")
    ++ (require (row.order_id == e.order_id) (payload_mismatch row.event_id "order_id")
        ++ (require (row.seq == e.sequence) (payload_mismatch row.event_id "seq")
            ++ (require (row.operation == e.operation) (payload_mismatch row.event_id "operation")
                ++ (require (row.quantity == e.quantity) (payload_mismatch row.event_id "quantity")
                    ++ require (row.price == e.price) (payload_mismatch row.event_id "price")))))

unfoldable pub request_errors : String → Option Event → Event → List Problem
unfolding require
request_errors id none e = request_unavailable id ∷ []
request_errors id (some payload) e = require (payload == e) (request_mismatch id)

-- The rows of unknown events are skipped.
unfoldable pub row_errors : Option Event → EffectRow × Option Event → List Problem
unfolding field_errors request_errors
row_errors none (row, payload) = []
row_errors (some e) (row, payload) = field_errors row e ++ request_errors row.event_id payload e

unfoldable pub payload_errors : List Event → Remote → List Problem
unfolding row_errors each
payload_errors expected remote =
    each
      (λ (entry : EffectRow × Option Event).
        row_errors (lookup entry.0.event_id (expected_by_id expected)) entry)
      remote.effects

abbrev pub row_key : EffectRow × Option Event → String × ℕ
row_key (row, payload) = (row.seller_id, row.order_id)

abbrev pub event_key : Event → String × ℕ
event_key e = (e.seller_id, e.order_id)

abbrev pub row_seqs : List (EffectRow × Option Event) → List ℕ
row_seqs rows = map (λ (entry : EffectRow × Option Event). entry.0.seq) rows

-- `sorted(e['sequence'] for e in expected if key matches)`
unfoldable pub wanted_seqs : String × ℕ → List Event → List ℕ
wanted_seqs key expected =
    sort_by leb (map (λ (e : Event). e.sequence) (keep (λ e. event_key e == key) expected))

-- `==` of two lists of numbers
abbrev pub list_beq : List ℕ → List ℕ → Bool
list_beq [] [] = true
list_beq (x ∷ xs) (y ∷ ys) = if x == y then list_beq xs ys else false
list_beq [] (y ∷ ys) = false
list_beq (x ∷ xs) [] = false

unfoldable pub order_errors : List Event → Remote → List Problem
unfolding require each
order_errors expected remote =
    each
      (λ (entry : (String × ℕ) × List (EffectRow × Option Event)).
        require (list_beq (row_seqs entry.1) (wanted_seqs entry.0 expected))
          (order_violation entry.0 (row_seqs entry.1) (wanted_seqs entry.0 expected)))
      (group_by row_key remote.effects)

-- `==` of two Counters: a missing key counts zero.
unfoldable pub same_counts : Dict String ℕ → Dict String ℕ → Bool
same_counts a b =
    all (λ (entry : String × ℕ). counter entry.0 b == entry.1) a
    && all (λ (entry : String × ℕ). counter entry.0 a == entry.1) b

abbrev pub keys : Dict String Event → List String
keys d = map (λ (entry : String × Event). entry.0) d

abbrev pub db_ids : List DbEffect → List String
db_ids rows = map (λ (row : DbEffect). row.event_id) rows

unfoldable pub id_errors : List Event → List DbEffect → List Problem
unfolding require same_counts count_by_id expected_by_id
id_errors expected rows =
    require (same_counts (count_by_id (db_ids rows)) (count_by_id (keys (expected_by_id expected))))
      ids_differ

unfoldable pub db_row_errors : Option Event → DbEffect → List Problem
unfolding require
db_row_errors none row = []
db_row_errors (some e) row =
    require (row.seller_id == e.seller_id) (db_mismatch row.event_id "seller_id")
    ++ (require (row.order_id == e.order_id) (db_mismatch row.event_id "order_id")
        ++ (require (row.run_id == e.run_id) (db_mismatch row.event_id "run_id")
            ++ (require (row.seq == e.sequence) (db_mismatch row.event_id "seq")
                ++ (require (row.operation == e.operation) (db_mismatch row.event_id "operation")
                    ++ (require (row.quantity == e.quantity) (db_mismatch row.event_id "quantity")
                        ++ require (row.price == e.price) (db_mismatch row.event_id "price"))))))

unfoldable pub db_errors : List Event → List DbEffect → List Problem
unfolding each db_row_errors
db_errors expected rows =
    each (λ (row : DbEffect). db_row_errors (lookup row.event_id (expected_by_id expected)) row)
      rows

-- `if key not in latest or latest[key]['sequence'] < e['sequence']: latest[key] = e`
unfoldable pub note_latest : Event → Dict (String × ℕ) Event → Dict (String × ℕ) Event
note_latest e d = elim (lookup (event_key e) d) [
  | none ↦ insert (event_key e) e d
  | some old ↦ if ltb old.sequence e.sequence then insert (event_key e) e d else d
]

unfoldable pub latest_from : List Event → Dict (String × ℕ) Event → Dict (String × ℕ) Event
unfolding note_latest
latest_from [] d = d
latest_from (e ∷ es) d = latest_from es (note_latest e d)

-- The event with the highest sequence number of each order.
abbrev pub latest : List Event → Dict (String × ℕ) Event
latest expected = latest_from expected []

unfoldable pub load_rows : List OrderRow → Dict (String × ℕ) OrderRow → Dict (String × ℕ) OrderRow
load_rows [] d = d
load_rows (row ∷ rows) d = load_rows rows (insert (row.seller_id, row.order_id) row d)

-- `{(row['seller_id'], row['order_id']): row for row in orders}`
abbrev pub actual : List OrderRow → Dict (String × ℕ) OrderRow
actual rows = load_rows rows []

-- `a.keys() == b.keys()`
unfoldable pub same_keys : {A B : Type 0} → Dict (String × ℕ) A → Dict (String × ℕ) B → Bool
same_keys a b = all (λ entry. contains entry.0 b) a && all (λ entry. contains entry.0 a) b

unfoldable pub final_errors : Label → String × ℕ → Option OrderRow → Event → List Problem
unfolding require
final_errors label key none e = []
final_errors label key (some row) e =
    require (row.seq == e.sequence) (state_mismatch label key "seq")
    ++ (require (row.operation == e.operation) (state_mismatch label key "operation")
        ++ (require (row.quantity == e.quantity) (state_mismatch label key "quantity")
            ++ require (row.price == e.price) (state_mismatch label key "price")))

-- `for key, event in latest.items()`
unfoldable pub latest_errors :
    Label → Dict (String × ℕ) OrderRow → Dict (String × ℕ) Event → List Problem
unfolding each final_errors
latest_errors label rows events =
    each
      (λ (entry : (String × ℕ) × Event). final_errors label entry.0 (lookup entry.0 rows) entry.1)
      events

unfoldable pub state_errors : List Event → Label → List OrderRow → List Problem
unfolding require same_keys latest_errors
state_errors expected label rows =
    require (same_keys (actual rows) (latest expected)) (keys_differ label)
    ++ latest_errors label (actual rows) (latest expected)

abbrev pub is_409 : AttemptRow → Bool
is_409 a = elim a.status [ none ↦ false | some s ↦ s == 409 ]

unfoldable pub check : List Event → Remote → List DbEffect → List OrderRow → List Problem
unfolding require
check expected remote rows orders =
    require (length (expected_by_id expected) == length expected) duplicate_ids
    ++ (count_errors expected remote
        ++ (payload_errors expected remote
            ++ (order_errors expected remote
                ++ (id_errors expected rows
                    ++ (db_errors expected rows
                        ++ (state_errors expected external remote.orders
                            ++ (state_errors expected business_db orders
                                ++ require (not (any is_409 remote.attempts))
                                    request_rejected)))))))

unfoldable pub passed : List Event → Remote → List DbEffect → List OrderRow → Bool
passed expected remote rows orders = is_empty (check expected remote rows orders)
