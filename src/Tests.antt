-- ===== src/Tests.antt =====
-- Runs of the code at concrete inputs, and the theorems applied to them.
pub mod Fixtures
mod Store
mod Services
mod Clients
mod Sending
mod Web
