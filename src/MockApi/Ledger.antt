-- ===== src/MockApi/Ledger.antt =====
-- `class Ledger` of experiments/mock-partner-api/server.py: the state under the lock, the queue of
-- statement groups, and the writer thread's loop. The `done` dict of an enqueued group is a
-- ticket: `settled` says of each ticket whether its group was committed (`true`) or failed.
use event_driven_order_syste.Base.{
  ℕ, zero, suc, ◌+◌, max, String, Bool, true, false, Option, none, some, List, [], ◌∷◌, ◌++◌,
  nat_eq, string_eq, pair_eq,
}
use event_driven_order_syste.Base.Dict.{Dict, insert, counter}
use event_driven_order_syste.Event.{Event}
use event_driven_order_syste.MockApi.Tables.{
  EffectRow, AttemptRow, OrderRow, Database, Statement, execute_all,
}

-- One entry of the queue: the statements of a `write` or `enqueue` call.
pub record Item : Type 0 where
  pub ticket : ℕ
  pub statements : List Statement

pub record Ledger : Type 0 where
  pub effects : Dict String Event
  pub orders : Dict (String × ℕ) ℕ
  pub attempt_counts : Dict String ℕ
  pub next_attempt : ℕ
  pub next_effect : ℕ
  pub active : Dict String ℕ
  -- the queue; `none` is the sentinel that ends the writer
  pub pending : List (Option Item)
  pub next_ticket : ℕ
  pub settled : Dict ℕ Bool
  pub db : Database

load_effects : Dict ℕ EffectRow → Dict String Event → Dict String Event
load_effects [] d = d
load_effects ((_, row) ∷ rows) d = load_effects rows (insert row.event_id row.payload d)

load_orders : Dict (String × ℕ) OrderRow → Dict (String × ℕ) ℕ → Dict (String × ℕ) ℕ
load_orders [] d = d
load_orders ((_, row) ∷ rows) d = load_orders rows (insert (row.seller_id, row.order_id) row.seq d)

load_counts : Dict ℕ AttemptRow → Dict String ℕ → Dict String ℕ
load_counts [] d = d
load_counts ((_, row) ∷ rows) d =
    load_counts rows (insert row.event_id (counter row.event_id d + 1) d)

-- `SELECT MAX(id)`, or 0 for no row.
max_key {ℓ} : {V : Type ℓ} → Dict ℕ V → ℕ
max_key [] = 0
max_key ((k, _) ∷ rows) = max k (max_key rows)

-- `Ledger.__init__` over the file's tables.
unfoldable pub open_ledger : Database → Ledger
unfolding load_effects load_orders load_counts max_key
open_ledger db = record {
  effects = load_effects db.effects [];
  orders = load_orders db.orders [];
  attempt_counts = load_counts db.attempts [];
  next_attempt = max_key db.attempts + 1;
  next_effect = max_key db.effects + 1;
  active = [];
  pending = [];
  next_ticket = 0;
  settled = [];
  db = db;
}

-- `enqueue`: puts the statements at the end of the queue.
unfoldable pub enqueue : List Statement → Ledger → ℕ × Ledger
enqueue statements l = (
  l.next_ticket,
  record l {
    pending = l.pending ++ some (record { ticket = l.next_ticket; statements = statements }) ∷ [];
    next_ticket = l.next_ticket + 1;
  },
)

-- The inner `while len(batch) < 2000`: takes what is queued, at most `room` items; a sentinel goes
-- back to the end of the queue and closes the group.
unfoldable pub gather : ℕ → List (Option Item) → List Item × List (Option Item)
gather zero queue = ([], queue)
gather (suc room) [] = ([], [])
gather (suc room) (none ∷ queue) = ([], queue ++ none ∷ [])
gather (suc room) (some item ∷ queue) =
    let (batch, rest) = gather room queue in (item ∷ batch, rest)

abbrev pub group_limit : ℕ
group_limit = 2000

unfoldable pub all_statements : List Item → List Statement
all_statements [] = []
all_statements (item ∷ items) = item.statements ++ all_statements items

unfoldable pub settle_all : Bool → List Item → Dict ℕ Bool → Dict ℕ Bool
settle_all ok [] d = d
settle_all ok (item ∷ items) d = settle_all ok items (insert item.ticket ok d)

abbrev pub or_rollback : Option Database → Database → Bool × Database
or_rollback none db = (false, db)
or_rollback (some db') db = (true, db')

-- `disk` says whether SQLite can commit this group (a full disk or an I/O error is `false`). A
-- failing statement or commit rolls the whole group back.
unfoldable pub commit : Bool → List Item → Database → Bool × Database
commit false group db = (false, db)
commit true group db = or_rollback (execute_all (all_statements group) db) db

-- The group that the writer takes: what is queued, at most `group_limit` items.
unfoldable pub group_of : Ledger → List Item
unfolding gather
group_of l = (gather group_limit l.pending).0

unfoldable pub store : Bool × Database → List Item → List (Option Item) → Ledger → Ledger
unfolding settle_all
store (ok, db) group rest l = record l {
  pending = rest;
  db = db;
  settled = settle_all ok group l.settled;
}

unfoldable pub write_queue : Bool → List (Option Item) → Ledger → Option Ledger
write_queue disk [] l = none
write_queue disk (none ∷ queue) l = none
write_queue disk (some item ∷ queue) l =
    let (group, rest) = gather group_limit (some item ∷ queue) in
    some (store (commit disk group l.db) group rest l)

-- One round of `write_loop`: `none` where the writer blocks on an empty queue or ends.
unfoldable pub write_round : Bool → Ledger → Option Ledger
unfolding write_queue
write_round disk l = write_queue disk l.pending l
