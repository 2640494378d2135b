-- ===== src/Web.antt =====
-- The web interface of internal/web.
pub mod Json
pub mod Ports
pub mod Http
pub mod Auth
pub mod Setup
pub mod Mailbox
pub mod Mime
pub mod Source
pub mod Compose
pub mod Admin
pub mod Api
pub mod Gate
pub mod Keeps
pub mod Sessions
pub mod Rebinding
pub mod Sent
pub mod Recipients
pub mod Outgoing
pub mod Wiped
pub mod Unreachable
