-- ===== src/Window.antt =====
-- backend/internal/mcpserver/window.go: the window and the page of a query over MCP.
pub mod Bounds
pub mod Page
mod Tests
