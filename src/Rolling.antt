-- ===== src/Rolling.antt =====
-- backend/internal/services/rolling_cache.go: the aggregates of the last hour, by minute bucket.
pub mod Cover
pub mod Buckets
mod Tests
