-- ===== src/Web/Admin.antt =====
-- The admin interface of internal/web/handlers_admin.go. The session was checked before.
pub mod Accounts
pub mod Rules
pub mod Settings
pub mod Dkim
pub mod Reset
pub mod Routes
