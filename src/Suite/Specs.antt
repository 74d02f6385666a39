-- ===== src/Suite/Specs.antt =====
-- The run specifications of experiments/isolation/suite.py and what `execute` of
-- experiments/isolation/runner.py looks up in them.
pub mod Phases
use event_driven_order_syste.Base.{
  ℕ, ◌+◌, ◌*◌, String, Bool, true, false, Option, none, some, List, [], ◌∷◌, ◌==◌, string_eq,
  nat_eq, if◌then◌else◌,
}

-- `CANDIDATES` of the runner: the mode of the service and the routing of the keys.
pub data Candidate : Type 0 where
  kafka_bucket kafka_retry db_inbox : Candidate

abbrev pub mode_of : Candidate → String
mode_of kafka_bucket = "kafka-bucket"
mode_of kafka_retry = "kafka-retry"
mode_of db_inbox = "inbox"

abbrev pub routing_of : Candidate → String
routing_of kafka_bucket = "bucket"
routing_of kafka_retry = "order"
routing_of db_inbox = "order"

abbrev pub all_candidates : List Candidate
all_candidates = kafka_bucket ∷ kafka_retry ∷ db_inbox ∷ []

pub data Condition : Type 0 where
  scale stale : Condition

pub data Scenario : Type 0 where
  scale_out stale_owner observer_pause : Scenario
  observer_off : (windows : List (String × Bool)) → Scenario

-- A phase: its name, its seconds and its events per second.
pub record RatedPhase : Type 0 where
  pub name : String
  pub seconds : ℕ
  pub rate : ℕ

abbrev pub phase : String → (seconds rate : ℕ) → RatedPhase
phase name seconds rate = record { name = name; seconds = seconds; rate = rate }

-- A specification, without the label that names the run's directory. A key that the dict of the
-- source may lack is `none`, and the runner's default of it is where it is read.
pub record Spec : Type 0 where
  pub stage : String
  pub candidate : Candidate
  pub seed : ℕ
  pub backlog_limit : Option ℕ
  pub seller_quota : Option ℕ
  pub phases : List RatedPhase
  pub fault : Option String
  pub judged_phases : List String
  pub scenario : Option Scenario
  pub scenario_phase : Option String
  pub partners_at_start : Option ℕ
  pub drain_seconds : ℕ

unfoldable pub e1_spec : Candidate → (seed rate backlog : ℕ) → (label : String) → Spec
e1_spec candidate seed rate backlog label = record {
  stage = label;
  candidate = candidate;
  seed = seed;
  backlog_limit = some backlog;
  seller_quota = none;
  phases =
      phase "warmup" 90 rate
      ∷ phase "baseline" 90 rate
      ∷ phase "fault" 180 rate
      ∷ phase "recovery" 90 rate
      ∷ [];
  fault = some "fault";
  judged_phases = "fault" ∷ "recovery" ∷ [];
  scenario = none;
  scenario_phase = none;
  partners_at_start = none;
  drain_seconds = 60;
}

unfoldable pub r1_spec : Candidate → (seed rate fault_seconds : ℕ) → Spec
unfolding e1_spec
r1_spec candidate seed rate fault_seconds =
    let label = if fault_seconds == 180 then "r1" else "r1long" in
    record (e1_spec candidate seed rate 2000 label) {
      phases =
          phase "warmup" 90 rate
          ∷ phase "baseline" 90 rate
          ∷ phase "fault" fault_seconds rate
          ∷ phase "recovery" 90 rate
          ∷ [];
      seller_quota = some 200;
    }

unfoldable pub e3_spec : Candidate → (seed rate : ℕ) → Condition → Spec
e3_spec candidate seed rate condition = record {
  stage = "e3";
  candidate = candidate;
  seed = seed;
  backlog_limit = none;
  seller_quota = none;
  phases = phase "warmup" 90 rate ∷ phase "scenario" 150 rate ∷ [];
  fault = elim condition [ scale ↦ some "scenario" | stale ↦ none ];
  judged_phases = "scenario" ∷ [];
  scenario = some (elim condition [ scale ↦ scale_out | stale ↦ stale_owner ]);
  scenario_phase = some "scenario";
  partners_at_start = some (elim condition [ scale ↦ 1 | stale ↦ 2 ]);
  drain_seconds = 90;
}

unfoldable pub e4_spec : Candidate → (seed rate : ℕ) → Spec
e4_spec candidate seed rate = record {
  stage = "e4";
  candidate = candidate;
  seed = seed;
  backlog_limit = none;
  seller_quota = none;
  phases = phase "warmup" 90 rate ∷ phase "input" 120 rate ∷ phase "after" 60 rate ∷ [];
  fault = some "input";
  judged_phases = "input" ∷ "after" ∷ [];
  scenario = some observer_pause;
  scenario_phase = some "input";
  partners_at_start = none;
  drain_seconds = 60;
}

unfoldable pub c0_spec : Candidate → (seed : ℕ) → Spec
c0_spec candidate seed = record {
  stage = "c0";
  candidate = candidate;
  seed = seed;
  backlog_limit = none;
  seller_quota = none;
  phases = phase "warmup" 90 40 ∷ phase "r40" 60 40 ∷ phase "r80" 60 80 ∷ phase "r160" 60 160 ∷ [];
  fault = none;
  judged_phases = [];
  scenario = none;
  scenario_phase = none;
  partners_at_start = none;
  drain_seconds = 60;
}
