-- ===== src/MockApi/Tables.antt =====
-- The SQLite file of the seller API mock (`LEDGER_SCHEMA` of
-- experiments/mock-partner-api/server.py) and the statements that the handler sends to it. A table
-- with a primary key is a dict by that key. An INSERT of a key that is there violates the
-- constraint, and its group is rolled back.
use event_driven_order_syste.Base.{
  ℕ, String, Option, none, some, List, [], ◌∷◌, nat_eq, string_eq, pair_eq, if◌then◌else◌,
}
use event_driven_order_syste.Base.Dict.{Dict, lookup, insert, contains}
use event_driven_order_syste.Event.{Event}

pub record EffectRow : Type 0 where
  pub effect_index : ℕ
  pub event_id : String
  pub seller_id : String
  pub order_id : ℕ
  pub seq : ℕ
  pub operation : String
  pub quantity : ℕ
  pub price : ℕ
  pub occurred_at : ℕ
  pub effect_at : ℕ
  pub payload : Event

-- `end_at`, `status` and `response_lost` are NULL until the call is decided.
pub record AttemptRow : Type 0 where
  pub id : ℕ
  pub event_id : String
  pub seller_id : String
  pub order_id : ℕ
  pub seq : ℕ
  pub start_at : ℕ
  pub end_at : Option ℕ
  pub status : Option ℕ
  pub response_lost : Option ℕ
  pub client : Option String

pub record OrderRow : Type 0 where
  pub seller_id : String
  pub order_id : ℕ
  pub seq : ℕ
  pub operation : String
  pub quantity : ℕ
  pub price : ℕ

pub record Database : Type 0 where
  pub effects : Dict ℕ EffectRow
  pub attempts : Dict ℕ AttemptRow
  pub orders : Dict (String × ℕ) OrderRow

abbrev pub empty_database : Database
empty_database = record { effects = []; attempts = []; orders = [] }

pub data Statement : Type 0 where
  insert_attempt : AttemptRow → Statement
  insert_effect : EffectRow → Statement
  upsert_order : OrderRow → Statement
  update_attempt : (end_at status response_lost id : ℕ) → Statement

-- `UPDATE attempts SET ... WHERE id=?`: no row, no change.
unfoldable pub close_attempt :
    (end_at status response_lost id : ℕ) → Dict ℕ AttemptRow → Dict ℕ AttemptRow
close_attempt end_at status lost id rows = elim (lookup id rows) [
  | none ↦ rows
  | some row ↦
      insert id
        (record row { end_at = some end_at; status = some status; response_lost = some lost }) rows
]

unfoldable pub execute : Statement → Database → Option Database
unfolding close_attempt
execute (insert_attempt row) db =
    if contains row.id db.attempts
    then none
    else some (record db { attempts = insert row.id row db.attempts })
execute (insert_effect row) db =
    if contains row.effect_index db.effects
    then none
    else some (record db { effects = insert row.effect_index row db.effects })
execute (upsert_order row) db =
    some (record db { orders = insert (row.seller_id, row.order_id) row db.orders })
execute (update_attempt end_at status lost id) db =
    some (record db { attempts = close_attempt end_at status lost id db.attempts })

-- The statements of one transaction, in order.
unfoldable pub execute_all : List Statement → Database → Option Database
execute_all [] db = some db
execute_all (s ∷ rest) db = elim (execute s db) [ none ↦ none | some db' ↦ execute_all rest db' ]
