-- ===== src/Mailstore.antt =====
-- internal/mailstore, over the tables of internal/db/db.go. The database driver itself does not
-- fail: an operation fails by a missing row, a broken constraint, or a disk that takes no file.
pub mod Schema
pub mod Flags
pub mod Folders
pub mod Messages
pub mod Accounts
pub mod Filters
pub mod Tokens
pub mod Search
pub mod Scheduled
pub mod Invariant
pub mod Delivered
pub mod FlagSets
pub mod Flagging
pub mod Login
pub mod Marking
pub mod Listing
pub mod History
pub mod LikeFlags
pub mod Kept
pub mod Revoked
