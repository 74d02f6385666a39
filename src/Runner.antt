-- ===== src/Runner.antt =====
-- One run on the cluster (experiments/isolation/runner.py): `Wait` polls a condition, `Schedule`
-- plans the fault and scenario steps, `StaleOwner` is the step that holds an operation back, and
-- `Execute` is the whole run, with what it does when a part of it raises.
pub mod Wait
pub mod Schedule
pub mod StaleOwner
pub mod Execute
