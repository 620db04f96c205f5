-- ===== src/GoalRuntime.antt =====
-- internal/goalruntime/goalruntime.go: reports on the goal commands, and the ledger that records them.
pub mod Data
pub mod Ledger
pub mod Evidence
pub mod Evaluation
pub mod Upsert
pub mod Prerequisites
pub mod Passing
pub mod Writing
