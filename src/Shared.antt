-- ===== src/Shared.antt =====
-- The machinery that both contexts share (shared/).
pub mod Uow
pub mod Outbox
pub mod Rows
pub mod Correlation
pub mod Event
pub mod Postgres
pub mod Problem
mod Tests
