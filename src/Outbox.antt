-- ===== src/Outbox.antt =====
-- src/moneyOutbox.ts: the outbox of money events, its worker and the loop that runs it.
pub mod Tests
pub mod Types
pub mod Repository
pub mod Picked
pub mod Steps
pub mod Final
pub mod Worker
pub mod Accounting
pub mod Loop
