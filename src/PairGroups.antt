-- ===== src/PairGroups.antt =====
-- The groups of stored rows that a graph read sums up: backend/internal/database/node_pair_read.go and
-- node_pair_parallel.go.
pub mod Sums
pub mod Merged
pub mod Keyed
pub mod Group
pub mod Columns
pub mod Same
pub mod Parts
pub mod Packing
pub mod Packed
pub mod Unpacked
pub mod Flags
pub mod Roundtrip
mod Tests
