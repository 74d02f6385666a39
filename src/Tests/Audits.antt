-- ===== src/Tests/Audits.antt =====
-- The workload, the exactly-once check, the observability rows and the budget audit on one order.
use event_driven_order_syste.Base.Sort.{sort_by}
use event_driven_order_syste.RunCheck.Safety.{effects_by_event}
use event_driven_order_syste.RunCheck.Run.{accepted, planned_events}
use event_driven_order_syste.Base.Group.{group_by}
use event_driven_order_syste.Base.{
  ℕ, String, ◌≡◌, refl, true, false, none, some, List, [], ◌∷◌, ltb, arith, nat_eq, string_eq,
  pair_eq,
}
use event_driven_order_syste.Base.Dict.{lookup, contains, insert, counter}
use event_driven_order_syste.Base.Lists.{count_if}
use event_driven_order_syste.Event.{Event, event_eq}
use event_driven_order_syste.MockApi.Tables.{OrderRow}
use event_driven_order_syste.Observer.{Alert}
use event_driven_order_syste.Checker.{
  Remote, DbEffect, passed, check, db_errors, order_errors, wanted_seqs, expected_by_id,
  count_errors, id_errors, state_errors, payload_errors, load_rows, latest_from,
}
use event_driven_order_syste.Checker.Sound.{IsExact, passed-IsExact}
use event_driven_order_syste.RunCheck.Observability.{
  Sample, Row, row_of, effect_at, created, judge_rows, judge_start,
}
use event_driven_order_syste.RunCheck.Observability.Truth.{is_overdue, row_of-truth}
use event_driven_order_syste.RunCheck.Observability.Episodes.{judge_rows-missed_rows}
use event_driven_order_syste.Workload.{Draws, Phase}
use event_driven_order_syste.BudgetAudit.{Audit, retry_admitted}
use event_driven_order_syste.Tests.Data.{
  good_run, created as create_event, cancelled, row_of as effect_row, attempt_of,
}

abbrev record_of : Event → DbEffect
record_of e = record {
  event_id = e.event_id;
  run_id = e.run_id;
  seller_id = e.seller_id;
  order_id = e.order_id;
  seq = e.sequence;
  operation = e.operation;
  quantity = e.quantity;
  price = e.price;
}

abbrev final_order : OrderRow
final_order = record {
  seller_id = "shop";
  order_id = 7;
  seq = 2;
  operation = "CANCEL";
  quantity = 2;
  price = 102;
}

abbrev expected : List Event
expected = create_event ∷ cancelled ∷ []

abbrev remote : Remote
remote = record {
  effects =
      (effect_row create_event 1, some create_event)
      ∷ (effect_row cancelled 2, some cancelled)
      ∷ [];
  attempts = attempt_of create_event 1 100 ∷ attempt_of cancelled 2 200 ∷ [];
  orders = final_order ∷ [];
}

abbrev db_rows : List DbEffect
db_rows = record_of cancelled ∷ record_of create_event ∷ []

passed-IsExact_example : IsExact expected remote db_rows (final_order ∷ [])
unfolding passed check expected_by_id insert count_errors counter lookup contains payload_errors
    order_errors group_by wanted_seqs sort_by id_errors db_errors state_errors load_rows latest_from
passed-IsExact_example = passed-IsExact expected remote db_rows (final_order ∷ []) refl

-- Between the acceptance of both events and their effects.
abbrev sample : Sample
sample = record { time = 1700000000400; ages = []; alert = some Alert.normal }

abbrev quiet_row : Row
quiet_row = record {
  t = 1700000000400;
  truth = false;
  state = some Alert.normal;
  errors = 398 ∷ [];
}

row_of-truth_example :
    false ≡ ltb 0 (count_if (is_overdue (effect_at good_run) 1700000000400) (created good_run))
unfolding row_of sort_by accepted insert lookup effects_by_event group_by planned_events contains
    counter
row_of-truth_example = row_of-truth good_run sample quiet_row refl

abbrev overdue_row : ℕ → Row
overdue_row t = record { t = t; truth = true; state = some Alert.normal; errors = [] }

judge_rows-missed_rows_example :
    (judge_rows (overdue_row 1000 ∷ overdue_row 5000 ∷ []) judge_start).missed_ms ≡ 1000
judge_rows-missed_rows_example =
    judge_rows-missed_rows (overdue_row 1000 ∷ overdue_row 5000 ∷ []) (tt, ((omega arith, tt), tt))

abbrev draws : Draws
draws = record {
  seller = λ order_id. "slow";
  event_id = λ order_id sequence. "id";
  run_id = "r";
  size = λ e. 1000;
}

abbrev phase : String → ℕ → Phase
phase name seconds = record { name = name; seconds = seconds }

abbrev audit : Audit
audit = record {
  attempts =
      record (attempt_of create_event 1 100) { seller_id = "slow" }
      ∷ record (attempt_of cancelled 2 300) { seller_id = "slow" }
      ∷ [];
  traces = retry_admitted none "e1" "slow" 90 ∷ retry_admitted none "e2" "slow" 290 ∷ [];
  inbox_mode = true;
  retries_expected = true;
}
