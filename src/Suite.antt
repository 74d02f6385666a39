-- ===== src/Suite.antt =====
-- The experiment plan (experiments/isolation/suite.py): `Specs` has the run specifications,
-- `Budget` the runs that a suite starts within its time, `Rate` the stage that sets the input
-- rate, `Pick` the selection rule, and `Plan` all the stages.
pub mod Specs
pub mod Budget
pub mod Rate
pub mod Pick
pub mod Plan
pub mod Instruments
