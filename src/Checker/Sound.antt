-- ===== src/Checker/Sound.antt =====
-- What a run without errors is (`check` of experiments/checker.py).
use event_driven_order_syste.Base.{
  ℕ, ◌≤◌, ◌≡◌, ◌⊎◌, ◌∙◌, sym, String, Bool, true, false, List, [], ◌==◌, ==_iff, nat_eq, string_eq,
  pair_eq, arith,
}
use event_driven_order_syste.Base.Lists.{length, All}
use event_driven_order_syste.Event.{Event}
use event_driven_order_syste.MockApi.Tables.{OrderRow}
use event_driven_order_syste.Checker.{
  external, business_db, DbEffect, Remote, require, expected_by_id, effect_ids, db_ids, row_seqs,
  wanted_seqs, is_409, check, passed, count_errors, payload_errors, order_errors, id_errors,
  db_errors, state_errors, duplicate_ids, request_rejected,
}
use event_driven_order_syste.Checker.Effects.{is_empty-require, occurrences, IsEffectOf, IsRecordOf}
use event_driven_order_syste.Checker.Ids.{
  event_ids, bit, expected_by_id-All, expected_by_id-occurrences,
}
use event_driven_order_syste.Checker.Loops.{
  rows_of, AreFinal, All-imp, order_errors-in_order, and_more, count_errors-occurrences,
  id_errors-occurrences, state_errors-AreFinal, payload_rows, db_rows, any-All,
}

pub record IsExact (expected : List Event) (remote : Remote) (rows : List DbEffect)
    (orders : List OrderRow) : Type 0 where
  pub unique : (id : String) → occurrences id (event_ids expected) ≤ 1
  pub effects :
      (id : String) → occurrences id (effect_ids remote) ≡ occurrences id (event_ids expected)
  pub payloads :
      All
        (λ (e : Event).
          All (λ entry. entry.0.event_id ≡ e.event_id → IsEffectOf e entry) remote.effects)
        expected
  pub in_order :
      (key : String × ℕ)
      → (rows_of key remote ≡ []) ⊎ (row_seqs (rows_of key remote) ≡ wanted_seqs key expected)
  pub records : (id : String) → occurrences id (db_ids rows) ≡ occurrences id (event_ids expected)
  pub record_fields :
      All
        (λ (e : Event). All (λ (row : DbEffect). row.event_id ≡ e.event_id → IsRecordOf e row) rows)
        expected
  pub external_orders : AreFinal expected remote.orders
  pub business_orders : AreFinal expected orders
  pub answers : All (λ a. is_409 a ≡ false) remote.attempts

bit-le : (b : Bool) → bit b ≤ 1
bit-le b = ground arith

-- A run that the check passes is exactly-once: the expected event ids are unique; the mock and the
-- business database have one effect of each expected event and no other, with its fields, and the
-- mock was sent its exact payload; the mock's effects of an order, if it has any, have the expected
-- sequence numbers in ascending order; both final order tables hold the latest event of each order
-- and no other order; and no request was answered 409.
pub passed-IsExact :
    (expected : List Event) (remote : Remote) (rows : List DbEffect) (orders : List OrderRow)
    → passed expected remote rows orders ≡ true
    → IsExact expected remote rows orders
unfolding passed check
passed-IsExact expected remote rows orders h =
    let (one, h1) =
      and_more (require (length (expected_by_id expected) == length expected) duplicate_ids) _ h in
    let (counts, h2) = and_more (count_errors expected remote) _ h1 in
    let (payload, h3) = and_more (payload_errors expected remote) _ h2 in
    let (order, h4) = and_more (order_errors expected remote) _ h3 in
    let (ids, h5) = and_more (id_errors expected rows) _ h4 in
    let (db, h6) = and_more (db_errors expected rows) _ h5 in
    let (ext, h7) = and_more (state_errors expected external remote.orders) _ h6 in
    let (bus, ans) = and_more (state_errors expected business_db orders) _ h7 in
    let size = (==_iff _ (length expected)).0 (sym (is_empty-require _ duplicate_ids) ∙ one) in
    let known = expected_by_id-occurrences expected size in
    let found = expected_by_id-All expected size in
    record {
      unique = λ id. rw known (bit-le _);
      effects = λ id. count_errors-occurrences expected remote id counts ∙ sym (known id);
      payloads = All-imp _ _ (λ e f. payload_rows expected remote payload e f) expected found;
      in_order = λ key. order_errors-in_order expected remote key order;
      records = λ id. id_errors-occurrences expected rows id ids ∙ sym (known id);
      record_fields = All-imp _ _ (λ e f. db_rows expected rows db e f) expected found;
      external_orders = state_errors-AreFinal expected external remote.orders ext;
      business_orders = state_errors-AreFinal expected business_db orders bus;
      answers = any-All is_409 remote.attempts (sym (is_empty-require _ request_rejected) ∙ ans);
    }
