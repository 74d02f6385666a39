-- ===== src/LocalRun/Case.antt =====
-- The settings, the environment, the faults and the gates of a case (`run_case` of
-- experiments/run.py).
pub mod Rate
use event_driven_order_syste.Base.{
  ℕ, ◌+◌, ◌*◌, ◌/◌, max, String, Bool, true, false, not, ◌&&◌, Option, none, some, List, [], ◌∷◌,
  ◌==◌, nat_eq, string_eq, if◌then◌else◌,
}
use event_driven_order_syste.Base.Lists.{all, any, range_from, is_empty}
use event_driven_order_syste.LocalRun.Dataset.{
  Workload, pair, market, sweep, market_orders, market_sellers,
}

pub data Mode : Type 0 where
  sequential async inbox inbox_batch inbox_lean circuit_breaker retry_topic parallel_consumer : Mode

pub data Scenario : Type 0 where
  clean api db ack_kill ack_release inbox_kill worker_kill external_kill response_loss : Scenario
  redelivery retry backlog business_before_kill inbox_before_kill rebalance broker_kill : Scenario
  hotkey park_kill hang broker_failover graceful_restart scale_out : Scenario

pub record Settings : Type 0 where
  pub orders : ℕ
  pub per_tick : ℕ
  pub backlog_limit : ℕ
  pub sellers : ℕ
  pub target_events_per_second : ℕ

abbrev pub orders_of : Workload → (rate duration : ℕ) → ℕ
orders_of pair rate duration = 24
orders_of market rate duration = market_orders
orders_of sweep rate duration = rate * duration / 3

abbrev pub per_tick_of : Workload → (rate : ℕ) → ℕ
per_tick_of sweep rate = max 1 (rate / 10)
per_tick_of _ rate = 8

abbrev pub backlog_limit_of : Scenario → ℕ
backlog_limit_of backlog = 8
backlog_limit_of _ = 200

abbrev pub sellers_of : Workload → ℕ
sellers_of pair = 2
sellers_of _ = market_sellers

unfoldable pub settings : Workload → Scenario → (rate duration : ℕ) → Settings
settings workload scenario rate duration = record {
  orders = orders_of workload rate duration;
  per_tick = per_tick_of workload rate;
  backlog_limit = backlog_limit_of scenario;
  sellers = sellers_of workload;
  target_events_per_second = per_tick_of workload rate * 10;
}

-- The environment of the partner service; a name that is not set is `none`.
pub record Environment : Type 0 where
  pub partner_mode : Mode
  pub batch_ingest : Option Bool
  pub attempts_before_call : Option Bool
  pub input_budget : Option ℕ
  pub retained_limit : Option ℕ
  pub done_retention_ms : Option ℕ
  pub max_poll_interval_ms : Option ℕ
  pub app_backlog_limit : Option ℕ
  pub trace_enabled : Option Bool

-- `INBOX_VARIANTS`: whether a poll is one transaction, and whether attempts are saved before the
-- call.
unfoldable pub inbox_variant : Mode → Option (Bool × Bool)
inbox_variant inbox = some (false, true)
inbox_variant inbox_batch = some (true, true)
inbox_variant inbox_lean = some (true, false)
inbox_variant _ = none

abbrev pub budget_of : Workload → Option ℕ
budget_of pair = none
budget_of market = some 5000
budget_of sweep = some 0

abbrev pub in_sweep : Workload → ℕ → Option ℕ
in_sweep sweep n = some n
in_sweep _ n = none

abbrev pub poll_interval_of : Scenario → Option ℕ
poll_interval_of rebalance = some 2000
poll_interval_of _ = none

abbrev pub app_backlog_of : Scenario → Option ℕ
app_backlog_of backlog = some 8
app_backlog_of _ = none

unfoldable pub environment : Mode → Scenario → Workload → (observe : Bool) → Environment
unfolding inbox_variant
environment mode scenario workload observe =
    let base : Environment = record {
      partner_mode = mode;
      batch_ingest = none;
      attempts_before_call = none;
      input_budget = budget_of workload;
      retained_limit = in_sweep workload 20000;
      done_retention_ms = in_sweep workload 2000;
      max_poll_interval_ms = poll_interval_of scenario;
      app_backlog_limit = app_backlog_of scenario;
      trace_enabled = if observe then none else some false;
    } in
    elim (inbox_variant mode) [
      | none ↦ base
      | some v ↦ record base {
        partner_mode = inbox;
        batch_ingest = some v.0;
        attempts_before_call = some v.1;
      }
    ]

abbrev pub fault_seconds : Scenario → ℕ
fault_seconds hang = 12
fault_seconds _ = 6

-- What is injected before the input; `clears` is the milliseconds after which `clear_fault` ends
-- it.
pub data Injection : Type 0 where
  seller_delay : (delay_ms failure_count clears : ℕ) → Injection
  seller_error : (failure_count clears : ℕ) → Injection
  response_is_lost : Injection
  shared_db_pool : (duration_ms : ℕ) → Injection

unfoldable pub injection : Scenario → Option Injection
injection hang = some (seller_delay 3000 0 12000)
injection hotkey = some (seller_delay 600 1000 6000)
injection api = some (seller_delay 600 0 6000)
injection backlog = some (seller_delay 600 0 6000)
injection broker_kill = some (seller_delay 600 0 6000)
injection park_kill = some (seller_delay 600 0 6000)
injection graceful_restart = some (seller_delay 600 0 6000)
injection scale_out = some (seller_delay 600 0 6000)
injection retry = some (seller_error 3 6000)
injection response_loss = some response_is_lost
injection db = some (shared_db_pool 3000)
injection _ = none

-- The gate at which the service is held.
unfoldable pub gate : Scenario → Option String
gate inbox_kill = some "inbox_commit"
gate worker_kill = some "worker_commit"
gate external_kill = some "external_success"
gate business_before_kill = some "business_before_commit"
gate inbox_before_kill = some "inbox_before_commit"
gate park_kill = some "retry_published"
gate ack_kill = some "business_commit"
gate ack_release = some "business_commit"
gate rebalance = some "business_commit"
gate _ = none

abbrev pub ops : Scenario → Bool
ops graceful_restart = true
ops scale_out = true
ops _ = false

-- An entry of the answer of `/load`.
pub record Placement : Type 0 where
  pub partition : ℕ
  pub seller_id : String

abbrev pub is_in : List ℕ → ℕ → Bool
is_in ns n = any (λ m. m == n) ns

abbrev pub slow_partitions : List Placement → List ℕ
slow_partitions [] = []
slow_partitions (p ∷ ps) =
    let rest = slow_partitions ps in if p.seller_id == "slow" then p.partition ∷ rest else rest

-- The set of the partitions of the placements is {0}.
abbrev pub only_partition_0 : List Placement → Bool
only_partition_0 placements =
    not (is_empty placements) && all (λ (p : Placement). p.partition == 0) placements

-- `slow_parts == set(range(partitions))`
abbrev pub slow_is_everywhere : (partitions : ℕ) → List Placement → Bool
slow_is_everywhere partitions placements =
    let slow = slow_partitions placements in
    let every = range_from 0 partitions in all (is_in slow) every && all (is_in every) slow

-- Whether the assertions on the placements hold.
unfoldable pub placements_pass : Scenario → (partitions : ℕ) → List Placement → Bool
placements_pass scenario partitions placements =
    if ops scenario
    then true
    else (if partitions == 1
        then only_partition_0 placements
        else (if partitions == 0 then true else slow_is_everywhere partitions placements))
