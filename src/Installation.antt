-- ===== src/Installation.antt =====
-- The installation's state of internal/state/state.go.
pub mod Config
pub mod Runtime
pub mod Sessions
