-- ===== src/Reports.antt =====
-- The figures that the reports compute from a run (experiments/ops_report.py,
-- experiments/comparison_report.py): the highest number of overlapping calls.
pub mod Buffer
pub mod Peaks
