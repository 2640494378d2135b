-- ===== src/Smtpd.antt =====
-- The SMTP service of internal/smtpd/smtpd.go, with the hooks that cmd/cloudpost/main.go gives it.
pub mod Login
pub mod Session
pub mod Data
pub mod Gate
pub mod Outcome
pub mod Kept
pub mod Accepted
