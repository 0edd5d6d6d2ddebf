-- ===== src/Convergence.antt =====
-- api/app/core/convergence.py.
pub mod Rows
pub mod Report
pub mod Counts
pub mod Sound
pub mod Totals
