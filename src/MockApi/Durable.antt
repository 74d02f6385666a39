-- ===== src/MockApi/Durable.antt =====
-- The writer of experiments/mock-partner-api/server.py: groups keep the queue's order, a group that
-- is reported committed has its effect rows in the file, and what a failed group leaves behind.
pub mod Lost
use event_driven_order_syste.Base.{
  ℕ, zero, suc, ◌+◌, String, ◌≡◌, refl, ap, ◌∙◌, sym, Bool, true, false, Option, none, some, List,
  [], ◌∷◌, ◌++◌, arith, ◌==◌, ==_iff, ==_refl, nat_eq, if◌then◌else◌, subst, Option-cases, inl, inr,
  ◌⊎◌, Bool-cases,
}
use mathlib.Core.List.{append_assoc}
use event_driven_order_syste.Base.Dict.{
  Dict, lookup, insert, contains, lookup-insert, lookup-insert_self,
}
use event_driven_order_syste.MockApi.Tables.{
  EffectRow, Database, Statement, insert_attempt, insert_effect, upsert_order, update_attempt,
  execute, execute_all,
}
use mathlib.Core.Option.{some-injective}
use event_driven_order_syste.MockApi.Ledger.{
  store, write_queue, or_rollback, group_limit, Item, Ledger, gather, all_statements, settle_all,
  commit, group_of, write_round,
}

-- The groups waiting in the queue, without the sentinel.
abbrev pub items_of : List (Option Item) → List Item
items_of [] = []
items_of (none ∷ queue) = items_of queue
items_of (some item ∷ queue) = item ∷ items_of queue

items_of-sentinel : (queue : List (Option Item)) → items_of (queue ++ none ∷ []) ≡ items_of queue
items_of-sentinel [] = refl
items_of-sentinel (none ∷ queue) = items_of-sentinel queue
items_of-sentinel (some item ∷ queue) = ap (◌∷◌ item) (items_of-sentinel queue)

gather-items_of :
    (room : ℕ) (queue : List (Option Item))
    → (gather room queue).0 ++ items_of (gather room queue).1 ≡ items_of queue
unfolding gather
gather-items_of zero queue = refl
gather-items_of (suc room) [] = refl
gather-items_of (suc room) (none ∷ queue) = items_of-sentinel queue
gather-items_of (suc room) (some item ∷ queue) = ap (◌∷◌ item) (gather-items_of room queue)

execute-keeps :
    (s : Statement) (db db' : Database) (i : ℕ) (row : EffectRow)
    → execute s db ≡ some db'
    → lookup i db.effects ≡ some row
    → lookup i db'.effects ≡ some row
unfolding execute contains
execute-keeps (insert_effect r) db db' i row h k =
    ground (arith, lookup-insert r.effect_index i r db.effects, ==_iff r.effect_index i)
execute-keeps (insert_attempt r) db db' i row h k = ground arith
execute-keeps (upsert_order r) db db' i row h k = ground arith
execute-keeps (update_attempt e st lost id) db db' i row h k = ground arith

execute_all-cons :
    (s : Statement) (ss : List Statement) (db db' : Database)
    → execute_all (s ∷ ss) db ≡ some db'
    → (mid : Database) × (execute s db ≡ some mid) × (execute_all ss mid ≡ some db')
unfolding execute_all
execute_all-cons s ss db db' h = elim (Option-cases (execute s db)) [
  | inl e ↦ absurd (ground arith)
  | inr (mid, e) ↦ (mid, e, ground arith)
]

execute_all-keeps :
    (ss : List Statement) (db db' : Database) (i : ℕ) (row : EffectRow)
    → execute_all ss db ≡ some db'
    → lookup i db.effects ≡ some row
    → lookup i db'.effects ≡ some row
unfolding execute_all
execute_all-keeps [] db db' i row h k = ground arith
execute_all-keeps (s ∷ ss) db db' i row h k =
    let (mid, e, rest) = execute_all-cons s ss db db' h in
    execute_all-keeps ss mid db' i row rest (execute-keeps s db mid i row e k)

execute-stores :
    (row : EffectRow) (db db' : Database)
    → execute (insert_effect row) db ≡ some db'
    → lookup row.effect_index db'.effects ≡ some row
unfolding execute contains
execute-stores row db db' h = ground (arith, lookup-insert_self row.effect_index row db.effects)

-- A transaction that runs through has stored each effect row that it inserts.
pub execute_all-stores :
    (before after : List Statement) (row : EffectRow) (db db' : Database)
    → execute_all (before ++ insert_effect row ∷ after) db ≡ some db'
    → lookup row.effect_index db'.effects ≡ some row
execute_all-stores [] after row db db' h =
    let (mid, e, rest) = execute_all-cons (insert_effect row) after db db' h in
    execute_all-keeps after mid db' row.effect_index row rest (execute-stores row db mid e)
execute_all-stores (s ∷ before) after row db db' h =
    let (mid, e, rest) = execute_all-cons s (before ++ insert_effect row ∷ after) db db' h in
    execute_all-stores before after row mid db' rest

all_statements-append :
    (xs ys : List Item) → all_statements (xs ++ ys) ≡ all_statements xs ++ all_statements ys
unfolding all_statements
all_statements-append [] ys = refl
all_statements-append (x ∷ xs) ys = simp (all_statements-append xs ys, append_assoc)

-- The statements of a group around one effect row of one of its items.
all_statements-split :
    (front back : List Item) (item : Item) (before after : List Statement) (row : EffectRow)
    → item.statements ≡ before ++ insert_effect row ∷ after
    → all_statements (front ++ item ∷ back)
      ≡ (all_statements front ++ before) ++ insert_effect row ∷ (after ++ all_statements back)
unfolding all_statements
all_statements-split front back item before after row h =
    rw all_statements-append (simp (h, append_assoc))

settle_all-other :
    (ok : Bool) (ticket : ℕ) (items : List Item) (d : Dict ℕ Bool)
    → lookup ticket d ≡ some ok
    → lookup ticket (settle_all ok items d) ≡ some ok
unfolding settle_all
settle_all-other ok ticket [] d h = h
settle_all-other ok ticket (item ∷ items) d h =
    settle_all-other ok ticket items (insert item.ticket ok d)
      (ground (arith, lookup-insert item.ticket ticket ok d))

settle_all-eq :
    (ok : Bool) (front back : List Item) (item : Item) (d : Dict ℕ Bool)
    → lookup item.ticket (settle_all ok (front ++ item ∷ back) d) ≡ some ok
unfolding settle_all
settle_all-eq ok [] back item d =
    settle_all-other ok item.ticket back (insert item.ticket ok d)
      (lookup-insert_self item.ticket ok d)
settle_all-eq ok (x ∷ front) back item d = settle_all-eq ok front back item (insert x.ticket ok d)

write_queue-parts :
    (disk : Bool) (queue : List (Option Item)) (l l' : Ledger)
    → write_queue disk queue l ≡ some l'
    → let group = (gather group_limit queue).0 in
      store (commit disk group l.db) group (gather group_limit queue).1 l ≡ l'
unfolding write_queue
write_queue-parts disk [] l l' h = cc
write_queue-parts disk (none ∷ queue) l l' h = cc
write_queue-parts disk (some item ∷ queue) l l' h = some-injective _ _ h

-- What a round of the writer does to the ledger.
write_round-parts :
    (disk : Bool) (l l' : Ledger)
    → write_round disk l ≡ some l'
    → store (commit disk (group_of l) l.db) (group_of l) (gather group_limit l.pending).1 l ≡ l'
unfolding write_round group_of
write_round-parts disk l l' h = write_queue-parts disk l.pending l l' h

-- `item` stands in the group, and `row` among its statements.
pub record Writes (l : Ledger) (item : Item) (row : EffectRow) : Type 0 where
  pub front : List Item
  pub back : List Item
  pub taken : group_of l ≡ front ++ item ∷ back
  pub before : List Statement
  pub after : List Statement
  pub written : item.statements ≡ before ++ insert_effect row ∷ after

-- A round of the writer takes groups from the front of the queue, in order; none is lost.
pub write_round-items_of :
    (disk : Bool) (l l' : Ledger)
    → write_round disk l ≡ some l'
    → group_of l ++ items_of l'.pending ≡ items_of l.pending
unfolding group_of store
write_round-items_of disk l l' h =
    subst (λ (m : Ledger). group_of l ++ items_of m.pending ≡ items_of l.pending)
      (write_round-parts disk l l' h) (gather-items_of group_limit l.pending)

or_rollback-cases :
    (group : List Item) (db : Database) (o : Option Database) (row : EffectRow)
    → ((db' : Database) → o ≡ some db' → lookup row.effect_index db'.effects ≡ some row)
    → (((or_rollback o db).0 ≡ true)
        × (lookup row.effect_index (or_rollback o db).1.effects ≡ some row))
      ⊎ (((or_rollback o db).0 ≡ false) × ((or_rollback o db).1 ≡ db))
or_rollback-cases group db none row k = inr (refl, refl)
or_rollback-cases group db (some db') row k = inl (refl, k db' refl)

commit-cases :
    (disk : Bool) (group : List Item) (db : Database) (row : EffectRow)
    → ((db' : Database)
        → execute_all (all_statements group) db ≡ some db'
        → lookup row.effect_index db'.effects ≡ some row)
    → (((commit disk group db).0 ≡ true)
        × (lookup row.effect_index (commit disk group db).1.effects ≡ some row))
      ⊎ (((commit disk group db).0 ≡ false) × ((commit disk group db).1 ≡ db))
unfolding commit
commit-cases false group db row k = inr (refl, refl)
commit-cases true group db row k =
    or_rollback-cases group db (execute_all (all_statements group) db) row k

-- A transaction over the group of `Writes` stores the row.
group-stores :
    (l : Ledger) (item : Item) (row : EffectRow) (db : Database)
    → Writes l item row
    → (db' : Database) → execute_all (all_statements (group_of l)) db ≡ some db'
    → lookup row.effect_index db'.effects ≡ some row
group-stores l item row db w db' h =
    execute_all-stores (all_statements w.front ++ w.before) (w.after ++ all_statements w.back) row
      db db'
      (rw (← all_statements-split w.front w.back item w.before w.after row w.written)
        (rw w.taken at h))

-- The state after a round, by the outcome of the commit.
abbrev pub Reported : Ledger → Ledger → Item → EffectRow → Type 0
Reported l l' item row =
    ((lookup item.ticket l'.settled ≡ some true)
      × (lookup row.effect_index l'.db.effects ≡ some row))
    ⊎ ((lookup item.ticket l'.settled ≡ some false) × (l'.db ≡ l.db))

store-Reported :
    (o : Bool × Database) (l : Ledger) (item : Item) (row : EffectRow) (rest : List (Option Item))
    → Writes l item row
    → ((o.0 ≡ true) × (lookup row.effect_index o.1.effects ≡ some row))
      ⊎ ((o.0 ≡ false) × (o.1 ≡ l.db))
    → Reported l (store o (group_of l) rest l) item row
unfolding store
store-Reported (ok, db) l item row rest w (inl (done, k)) =
    inl (rw w.taken (rw done (settle_all-eq true w.front w.back item l.settled)), k)
store-Reported (ok, db) l item row rest w (inr (failed, k)) =
    inr (rw w.taken (rw failed (settle_all-eq false w.front w.back item l.settled)), k)

-- When the writer reports a group committed, the effect row of an item of the group is in the file;
-- when it reports a failure, the file is as it was. It reports one of the two on every item that
-- inserts an effect.
pub write_round-Reported :
    (disk : Bool) (l l' : Ledger) (item : Item) (row : EffectRow)
    → write_round disk l ≡ some l'
    → Writes l item row
    → Reported l l' item row
write_round-Reported disk l l' item row h w =
    subst (λ (m : Ledger). Reported l m item row) (write_round-parts disk l l' h)
      (store-Reported (commit disk (group_of l) l.db) l item row (gather group_limit l.pending).1 w
        (commit-cases disk (group_of l) l.db row (group-stores l item row l.db w)))
