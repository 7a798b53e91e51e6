-- ===== src/HourPlan.antt =====
-- How a window is split between minute rows and hour rows: backend/internal/database/hour_rollup.go
-- and node_pair_parallel.go.
pub mod Plan
pub mod Sums
pub mod Reads
pub mod Spans
pub mod Cuts
pub mod Items
mod Tests
