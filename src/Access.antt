-- ===== src/Access.antt =====
-- backend/internal/access
pub mod Text
pub mod Allow
pub mod Permits
pub mod Request
pub mod Scope
pub mod Capability
pub mod Resolve
pub mod Denied
pub mod Forwarded
mod Tests
