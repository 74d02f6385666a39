-- ===== src/MockApi/Handler.antt =====
-- `Handler.do_POST` of experiments/mock-partner-api/server.py: the checks before the lock, the two
-- sections under the lock, the statements they produce and the reply.
use event_driven_order_syste.Base.{
  ℕ, ◌+◌, ◌-◌, String, Bool, true, false, ◌&&◌, Option, none, some, List, [], ◌∷◌, ◌++◌, nat_eq,
  string_eq, pair_eq, ◌==◌, ltb, if◌then◌else◌,
}
use event_driven_order_syste.Base.Dict.{Dict, lookup, insert, counter}
use event_driven_order_syste.Event.{Event, event_eq}
use event_driven_order_syste.MockApi.Tables.{
  EffectRow, OrderRow, Statement, insert_attempt, insert_effect, upsert_order, update_attempt,
}
use event_driven_order_syste.MockApi.Ledger.{Ledger}

-- A `/control` body, with the defaults of the `policy.get` calls for what it leaves out.
pub record Policy : Type 0 where
  pub delay_ms : ℕ
  pub failure_count : ℕ
  pub idempotent : Bool
  pub drop_response : Bool

abbrev pub default_policy : Policy
default_policy = record {
  delay_ms = 0;
  failure_count = 0;
  idempotent = true;
  drop_response = false;
}

abbrev pub or_else {ℓ} : {A : Type ℓ} → Option A → A → A
or_else none d = d
or_else (some a) d = a

-- `controls.get(seller, controls.get('*', {})).copy()`
unfoldable pub policy_for : String → Dict String Policy → Policy
policy_for seller controls =
    or_else (lookup seller controls) (or_else (lookup "*" controls) default_policy)

-- The headers and the body of a POST to `/orders`.
pub record Request : Type 0 where
  pub idempotency_key : Option String
  pub client : Option String
  pub body : Event

-- What a handler thread knows of its call once it is counted.
pub record Call : Type 0 where
  pub event : Event
  pub client : Option String
  pub policy : Policy
  pub start_at : ℕ
  pub count : ℕ
  pub attempt : ℕ

abbrev pub key_matches : Option String → String → Bool
key_matches none id = false
key_matches (some key) id = key == id

-- The first section under the lock, after the key check; `none` is the 400 reply.
unfoldable pub arrive : Request → Dict String Policy → (now : ℕ) → Ledger → Option (Call × Ledger)
unfolding policy_for
arrive r controls now l =
    if key_matches r.idempotency_key r.body.event_id
    then some (
      record {
        event = r.body;
        client = r.client;
        policy = policy_for r.body.seller_id controls;
        start_at = now;
        count = counter r.body.event_id l.attempt_counts;
        attempt = l.next_attempt;
      },
      record l {
        active = insert r.body.seller_id (counter r.body.seller_id l.active + 1) l.active;
        attempt_counts =
            insert r.body.event_id (counter r.body.event_id l.attempt_counts + 1) l.attempt_counts;
        next_attempt = l.next_attempt + 1;
      },
    )
    else none

-- `INSERT INTO attempts` of a counted call.
unfoldable pub start_record : Call → Statement
start_record c = insert_attempt (record {
  id = c.attempt;
  event_id = c.event.event_id;
  seller_id = c.event.seller_id;
  order_id = c.event.order_id;
  seq = c.event.sequence;
  start_at = c.start_at;
  end_at = none;
  status = none;
  response_lost = none;
  client = c.client;
})

-- The branches of the decision, in the order of the source.
pub data Verdict : Type 0 where
  fault replay conflict out_of_order apply : Verdict

unfoldable pub status_of : Verdict → ℕ
status_of Verdict.fault = 503
status_of Verdict.replay = 200
status_of Verdict.conflict = 409
status_of Verdict.out_of_order = 409
status_of Verdict.apply = 200

-- `state + 1 if state else 1`
unfoldable pub next_sequence : Option ℕ → ℕ
next_sequence none = 1
next_sequence (some state) = if state == 0 then 1 else state + 1

-- `prior is not None and policy.get('idempotent', True)`, then the comparison of the payloads
unfoldable pub judge : Call → Option Event → Option ℕ → Verdict
unfolding next_sequence
judge c prior state =
    if ltb c.count c.policy.failure_count
    then Verdict.fault
    else elim (if c.policy.idempotent then prior else none) [
      | some payload ↦ if payload == c.event then Verdict.replay else Verdict.conflict
      | none ↦
          if c.event.sequence == next_sequence state then Verdict.apply else Verdict.out_of_order
    ]

unfoldable pub effect_row : Event → (index now : ℕ) → EffectRow
effect_row e index now = record {
  effect_index = index;
  event_id = e.event_id;
  seller_id = e.seller_id;
  order_id = e.order_id;
  seq = e.sequence;
  operation = e.operation;
  quantity = e.quantity;
  price = e.price;
  occurred_at = e.occurred_at;
  effect_at = now;
  payload = e;
}

unfoldable pub order_row : Event → OrderRow
order_row e = record {
  seller_id = e.seller_id;
  order_id = e.order_id;
  seq = e.sequence;
  operation = e.operation;
  quantity = e.quantity;
  price = e.price;
}

pub record Decision : Type 0 where
  pub verdict : Verdict
  pub duplicate : Bool
  pub dropped : Bool
  pub effect : Option EffectRow
  pub statements : List Statement

abbrev pub order_key : Event → String × ℕ
order_key e = (e.seller_id, e.order_id)

abbrev pub is_some {ℓ} : {A : Type ℓ} → Option A → Bool
is_some none = false
is_some (some _) = true

-- The state that an applied call leaves.
unfoldable pub applied : Event → Ledger → Ledger
applied e l = record l {
  effects = insert e.event_id e l.effects;
  orders = insert (order_key e) e.sequence l.orders;
  next_effect = l.next_effect + 1;
}

unfoldable pub moved : Verdict → Event → Ledger → Ledger
unfolding applied
moved Verdict.apply e l = applied e l
moved _ e l = l

abbrev pub to_bit : Bool → ℕ
to_bit false = 0
to_bit true = 1

unfoldable pub effect_of : Verdict → Event → (index now : ℕ) → Option EffectRow
unfolding effect_row
effect_of Verdict.apply e index now = some (effect_row e index now)
effect_of _ e index now = none

unfoldable pub effect_statements : Option EffectRow → Event → List Statement
unfolding order_row
effect_statements none e = []
effect_statements (some row) e = insert_effect row ∷ upsert_order (order_row e) ∷ []

-- The second section under the lock. `now` is read twice in the source, once for the effect and
-- once for the end of the attempt.
unfoldable pub decide : Call → (effect_now end_now : ℕ) → Ledger → Decision × Ledger
unfolding status_of moved effect_of effect_statements
decide c effect_now end_now l =
    let prior = lookup c.event.event_id l.effects in
    let verdict = judge c prior (lookup (order_key c.event) l.orders) in
    let effect = effect_of verdict c.event l.next_effect effect_now in
    let dropped = status_of verdict == 200 && (c.policy.drop_response && c.count == 0) in
    let after = moved verdict c.event l in
    (
      record {
        verdict = verdict;
        duplicate = is_some prior;
        dropped = dropped;
        effect = effect;
        statements =
            effect_statements effect c.event
            ++ update_attempt end_now (status_of verdict) (to_bit dropped) c.attempt ∷ [];
      },
      record after {
        active = insert c.event.seller_id (counter c.event.seller_id after.active - 1) after.active;
      },
    )

-- What the caller sees: an answer, or a closed connection.
pub data Reply : Type 0 where
  answer : (event_id : String) (status : ℕ) (duplicate : Bool) → Reply
  closed : (event_id : String) → Reply

-- After `current.write(statements)`: a failed group raises, and the handler closes the connection.
unfoldable pub finish : Call → Decision → (committed : Bool) → Reply
finish c d false = closed c.event.event_id
finish c d true =
    if d.dropped
    then closed c.event.event_id
    else answer c.event.event_id (status_of d.verdict) d.duplicate
