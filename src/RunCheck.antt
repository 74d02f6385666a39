-- ===== src/RunCheck.antt =====
-- experiments/isolation/check.py: the verdicts on one run.
pub mod Stats
pub mod Overlap
pub mod Window
pub mod Run
pub mod Safety
pub mod Liveness
pub mod Budget
pub mod Observability
pub mod Latency
pub mod Evidence
