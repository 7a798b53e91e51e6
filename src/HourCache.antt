-- ===== src/HourCache.antt =====
-- backend/internal/database/closed_hour_cache.go
pub mod Lru
mod Elements
pub mod State
pub mod Index
pub mod Evict
pub mod Put
pub mod Invalidate
pub mod Prune
pub mod Protocol
pub mod Fresh
mod Tests
