-- ===== src/Tailnets.antt =====
-- The tailnets of a server and the one of a request: backend/internal/services/registry.go and
-- backend/internal/handlers/tailnet_scope.go.
pub mod Registry
pub mod Bind
pub mod Built
pub mod Listed
pub mod Bound
mod Tests
