-- ===== src/Convert.antt =====
-- backend/internal/services/log_converter.go: flow records from the responses of the Tailscale API.
pub mod Endpoint
pub mod Counter
pub mod Typed
pub mod Generic
pub mod StoredTyped
pub mod Stored
pub mod Exact
pub mod Decimal
pub mod Joined
mod Tests
