-- ===== src/Aggregate.antt =====
-- backend/internal/services/aggregator.go
pub mod Flow
pub mod Tables
pub mod State
pub mod Pairs
pub mod Conserved
pub mod Stats
pub mod Rows
pub mod Order
mod Tests
