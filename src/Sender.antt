-- ===== src/Sender.antt =====
-- The outbound queue of internal/sender.
pub mod Routes
pub mod Dkim
pub mod Queue
pub mod Scheduled
pub mod Retries
pub mod Attempts
pub mod Signing
pub mod Dispatch
