-- ===== src/Tests.antt =====
-- Concrete runs of the models: each applies a theorem where its hypotheses hold.
pub mod Data
pub mod Mock
pub mod Checks
pub mod Loops
pub mod Audits
pub mod Plans
pub mod Harness
pub mod Outputs
