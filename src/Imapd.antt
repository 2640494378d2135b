-- ===== src/Imapd.antt =====
-- The IMAP session of internal/imapd. The protocol library that reads the commands and writes the
-- answers is not modelled: a set of numbers is the list that its Nums gives.
pub mod Session
pub mod Mailboxes
pub mod Messages
pub mod Search
pub mod Sections
pub mod Fetching
pub mod Slices
pub mod Copies
pub mod MoveKept
pub mod Expunging
