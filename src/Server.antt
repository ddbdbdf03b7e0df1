-- ===== src/Server.antt =====
-- cmd/server/main.go: how the parts are wired together.
pub mod Wiring
pub mod Lifecycle
pub mod Routes
