-- ===== src/Engine.antt =====
-- The filter engine of internal/filter/filter.go.
pub mod Rules
pub mod FirstMatch
pub mod MoveAccount
pub mod Keeps
pub mod Lossless
pub mod OtherMail
pub mod SameRules
