-- ===== src/Settlement.antt =====
-- src/settlement.ts: the settlement of a market in Coins.
pub mod Tests
pub mod Types
pub mod Plan
pub mod Commit
pub mod Service
pub mod Stakes
pub mod Balance
pub mod Refunds
pub mod Committed
pub mod Once
pub mod Runs
