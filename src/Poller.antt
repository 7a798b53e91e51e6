-- ===== src/Poller.antt =====
-- backend/internal/services/poller.go over the flow log API.
pub mod State
pub mod Range
pub mod Chunks
pub mod Poll
pub mod Cursor
pub mod Record
pub mod Lifecycle
mod Tests
