-- ===== src/Pop3d.antt =====
-- The POP3 service of internal/pop3d/pop3.go: what it reads and writes, and its commands.
pub mod Wire
pub mod Session
pub mod Commands
pub mod Access
pub mod Quiet
pub mod Maildrop
pub mod Stuffing
pub mod Quitting
