-- ===== src/LocalRun.antt =====
-- The local experiment controller (experiments/run.py): `Dataset` has the events of a case, `Case`
-- what a case sets, injects and stops at, and `Input` how its events are sent.
pub mod Dataset
pub mod Input
pub mod Case
