-- ===== src/Ingest.antt =====
-- backend/internal/services/object_store_source.go: the ingestion of flow log objects.
pub mod Source
pub mod List
pub mod Select
pub mod Process
pub mod Poll
pub mod Chosen
pub mod Covered
pub mod Cursor
pub mod Fresh
mod Tests
