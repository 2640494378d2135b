-- ===== src/Fetch.antt =====
-- The fetcher of internal/fetch: the POP3 client, and the delivery of what it reads.
pub mod Pop3Client
pub mod Remote
pub mod Again
pub mod NewMails
