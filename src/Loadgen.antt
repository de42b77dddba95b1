-- ===== src/Loadgen.antt =====
-- cmd/loadgen/stats.go: what the load generator reports of a run.
pub mod Percentile
pub mod Stats
pub mod Report
pub mod Outcomes
pub mod Counted
pub mod Affinity
pub mod Verdict
pub mod Open
pub mod Balance
pub mod Once
